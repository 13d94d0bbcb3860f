-- ===== src/Pending/Secrets.antt =====
-- gateway/internal/pending/response.go: what the checked answers to a tool's questions are.
use codex_runtime.Base.{
  ◌≡◌, subst, ap, Text, true, false, none, some, List, [], ◌∷◌, Map, lookup, ok, All, Holds, arith,
  Option-cases, Bool-cases, inl, inr, ◌≢◌, text_eq, text_eq_iff, sym,
}
use codex_runtime.Domain.Responses.{
  PendingResponse, ToolUserInputAnswer, ToolUserInputPendingResponse,
}
use codex_runtime.Redact.Registry.{Registry, split_sensitive_value}
use codex_runtime.Redact.Covering.{IsSound, Covered, add_many-Covered_from}
use codex_runtime.Pending.Records.{Record, ToolQuestionSpec}
use codex_runtime.Pending.Responses.{is_seen}
use codex_runtime.Pending.Inputs.{
  InputAnswer, are_allowed, fits_question, register_secret, check_answers,
  validate_tool_user_input_response,
}
use codex_runtime.Pending.Checks.{Distinct}

-- The question of an answer is known; each of its values is one of those that the question allows, where
-- it allows some and no others; and the values of a secret are registered.
pub record IsChecked (questions : Map ToolQuestionSpec) (registry : Registry)
    (a : ToolUserInputAnswer) : Type 0 where
  pub question : ToolQuestionSpec
  pub known : lookup a.question_id questions ≡ some question
  pub allowed :
      question.allowed_values ≢ []
      → question.is_other ≡ false
      → All (λ v. Holds v question.allowed_values) a.answers
  pub hidden : question.is_secret ≡ true → Covered a.answers registry

is_seen-Holds : (v : Text) (vs : List Text) → is_seen v vs ≡ true → Holds v vs
is_seen-Holds v [] h = cc
is_seen-Holds v (u ∷ vs) h = elim (Bool-cases (text_eq u v)) [
  | inl p ↦ inl (sym ((text_eq_iff u v).0 p))
  | inr p ↦ inr (is_seen-Holds v vs (ground (arith, h, p)))
]

are_allowed-Holds :
    (allowed values : List Text)
    → are_allowed allowed values ≡ true
    → All (λ v. Holds v allowed) values
are_allowed-Holds allowed [] h = tt
are_allowed-Holds allowed (v ∷ values) h = (
  is_seen-Holds v allowed (ground (arith, h)),
  are_allowed-Holds allowed values (ground (arith, h)),
)

-- The comparison allows nothing that the question does not list.
fits_question-Holds :
    (question : ToolQuestionSpec) (values : List Text)
    → fits_question question values ≡ true
    → question.allowed_values ≢ []
    → question.is_other ≡ false
    → All (λ v. Holds v question.allowed_values) values
unfolding fits_question
fits_question-Holds question values h given only =
    are_allowed-Holds question.allowed_values values (ground (arith, h, given, only))

-- A registry keeps what it holds.
Grows : Registry → Registry → Type 0
Grows r r' = (u : Text) → Holds u r.segments → Holds u r'.segments

register_secret-Covered :
    (question : ToolQuestionSpec) (values : List Text) (r : Registry)
    → IsSound r
    → IsSound (register_secret question values r)
      × (question.is_secret ≡ true → Covered values (register_secret question values r))
      × Grows r (register_secret question values r)
unfolding register_secret Grows
register_secret-Covered question values r v = elim (Bool-cases question.is_secret) [
  | inr p ↦ rw p (v, (λ q. absurd (ground (arith, q))), λ u h. h)
  | inl p ↦ rw p (let (w, c, m) = add_many-Covered_from values r v in (w, (λ q. c), m))
]

Held-grow :
    (r r' : Registry) (ts : List Text)
    → Grows r r'
    → All (λ t. Holds t r.segments) ts
    → All (λ t. Holds t r'.segments) ts
unfolding Grows
Held-grow r r' [] m h = tt
Held-grow r r' (t ∷ ts) m h = (m t h.0, Held-grow r r' ts m h.1)

Covered-grow :
    (values : List Text) (r r' : Registry) → Grows r r' → Covered values r → Covered values r'
Covered-grow [] r r' m h = tt
Covered-grow (v ∷ values) r r' m h =
    ((λ q. Held-grow r r' (split_sensitive_value v) m (h.0 q)), Covered-grow values r r' m h.1)

abbrev pub ids_in : List ToolUserInputAnswer → List Text
ids_in [] = []
ids_in (a ∷ answers) = a.question_id ∷ ids_in answers

record Checked (questions : Map ToolQuestionSpec) (seen : List Text)
    (answers : List ToolUserInputAnswer) (before after : Registry) : Type 0 where
  sound : IsSound after
  grown : Grows before after
  distinct : Distinct seen (ids_in answers)
  all : All (IsChecked questions after) answers

check_answers-Checked :
    (questions : Map ToolQuestionSpec) (seen : List Text) (answers : List ToolUserInputAnswer)
    (before after : Registry)
    → IsSound before
    → check_answers questions seen answers before ≡ (after, none)
    → Checked questions seen answers before after
unfolding check_answers Grows
check_answers-Checked questions seen [] before after v h =
    subst (Checked questions seen [] before) (ap (λ x. x.0) h)
      (record { sound = v; grown = λ u q. q; distinct = tt; all = tt })
check_answers-Checked questions seen (a ∷ answers) before after v h =
    elim (Option-cases (lookup a.question_id questions)) [
      | inl p ↦ absurd (ground (arith, p, h))
      | inr (question, p) ↦
          let fresh : is_seen a.question_id seen ≡ false = ground (arith, p, h) in
          let fits : fits_question question a.answers ≡ true = ground (arith, p, h, fresh) in
          let (w, c, m) = register_secret-Covered question a.answers before v in
          let rest =
            check_answers-Checked questions (a.question_id ∷ seen) answers
              (register_secret question a.answers before) after w
              (ground (arith, p, h, fresh, fits)) in
          record {
            sound = rest.sound;
            grown = λ u q. rest.grown u (m u q);
            distinct = (fresh, rest.distinct);
            all = (
              record {
                question = question;
                known = p;
                allowed = fits_question-Holds question a.answers fits;
                hidden = λ q.
                    Covered-grow a.answers (register_secret question a.answers before) after
                      rest.grown (c q);
              },
              rest.all,
            );
          }
    ]

module _ {Value : Type 0} where
  -- An answer to a tool's questions that passes the checks, with a registry that is sound: no question
  -- is answered twice; each is one of the request's, and where the question allows certain values
  -- and no others, each value that is given is one of them; and of each value of at least four bytes that is
  -- given for a secret question the registry afterwards holds every segment.
  pub answers-IsChecked :
      (r : Record Value) (response : PendingResponse) (input : ToolUserInputPendingResponse)
      (before : Registry) (answer : InputAnswer)
      → response.tool_user_input ≡ some input
      → IsSound before
      → (validate_tool_user_input_response r response before).1 ≡ ok answer
      → Distinct [] (ids_in input.answers)
        × All
            (IsChecked r.tool_questions (validate_tool_user_input_response r response before).0)
            input.answers
  unfolding validate_tool_user_input_response
  answers-IsChecked r response input before answer given v h =
      let result = check_answers r.tool_questions [] input.answers before in
      elim (Option-cases result.1) [
        | inr (e, p) ↦ absurd (ground (arith, given, h, p))
        | inl p ↦
            let c =
              check_answers-Checked r.tool_questions [] input.answers before result.0 v
                (ground (arith, p)) in
            let same : (validate_tool_user_input_response r response before).0 ≡ result.0 =
              ground (arith, given, h, p) in
            (c.distinct, rw same c.all)
      ]
