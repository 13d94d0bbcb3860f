-- ===== src/Chatstate/Keys/Injective.antt =====
-- gateway/internal/chatstate/store.go: `replayKey` and `pendingKey`, and what they stand for.
use codex_runtime.Base.{Text, ◌≡◌, ◌≢◌, ap, sym, ◌∙◌, [], ◌∷◌, append_assoc, All, arith}
use codex_runtime.Chatstate.Types.{Scope, RunScope}
use codex_runtime.Chatstate.Keys.{◌⊕◌, active_run_key, replay_key, pending_key}

abbrev pub HasNoNul : Text → Type 0
HasNoNul = All λ b. b ≢ 0

pub join-injective : (a b c d : Text) → HasNoNul a → HasNoNul c → a ⊕ b ≡ c ⊕ d → (a ≡ c) × (b ≡ d)
join-injective [] b [] d h k p = ground arith
join-injective [] b (y ∷ c) d h k p = ground arith
join-injective (x ∷ a) b [] d h k p = ground arith
join-injective (x ∷ a) b (y ∷ c) d h k p = ground (arith, join-injective a b c d h.1 k.1)

-- The ids of a scope, each without a NUL byte.
pub record IsPlain (scope : Scope) : Type 0 where
  pub session_group_id : HasNoNul scope.session_group_id
  pub workspace_id : HasNoNul scope.workspace_id
  pub chat_id : HasNoNul scope.chat_id

join_assoc : (a b c : Text) → (a ⊕ b) ⊕ c ≡ a ⊕ (b ⊕ c)
join_assoc a b c = append_assoc a (0 ∷ b) (0 ∷ c)

replay_key-joined :
    (s : RunScope) → replay_key s ≡ s.session_group_id ⊕ (s.workspace_id ⊕ (s.chat_id ⊕ s.run_id))
unfolding replay_key active_run_key
replay_key-joined s =
    join_assoc s.session_group_id (s.workspace_id ⊕ s.chat_id) s.run_id
    ∙ ap (λ l. s.session_group_id ⊕ l) (join_assoc s.workspace_id s.chat_id s.run_id)

replay_key-parts :
    (a b : RunScope)
    → IsPlain a.scope
    → IsPlain b.scope
    → replay_key a ≡ replay_key b
    → (a.session_group_id ≡ b.session_group_id)
      × (a.workspace_id ≡ b.workspace_id)
      × (a.chat_id ≡ b.chat_id)
      × (a.run_id ≡ b.run_id)
replay_key-parts a b p q h =
    let e = sym (replay_key-joined a) ∙ h ∙ replay_key-joined b in
    let (g, r) =
      join-injective a.session_group_id _ b.session_group_id _ p.session_group_id q.session_group_id
        e in
    let (w, t) = join-injective a.workspace_id _ b.workspace_id _ p.workspace_id q.workspace_id r in
    let (c, u) = join-injective a.chat_id a.run_id b.chat_id b.run_id p.chat_id q.chat_id t in
    (g, w, c, u)

-- Two runs whose session group, workspace and chat ids hold no NUL byte share a replay key only if
-- they are the same run of the same chat.
pub replay_key-injective :
    (a b : RunScope) → IsPlain a.scope → IsPlain b.scope → replay_key a ≡ replay_key b → a ≡ b
replay_key-injective a b p q h = ground (arith, replay_key-parts a b p q h)

pending_key-joined :
    (s : RunScope) (id : Text)
    → pending_key s id ≡ s.session_group_id ⊕ (s.workspace_id ⊕ (s.chat_id ⊕ (s.run_id ⊕ id)))
unfolding pending_key
pending_key-joined s id =
    ap (λ l. l ⊕ id) (replay_key-joined s)
    ∙ join_assoc s.session_group_id _ id
    ∙ ap (λ l. s.session_group_id ⊕ l)
        (join_assoc s.workspace_id _ id
          ∙ ap (λ l. s.workspace_id ⊕ l) (join_assoc s.chat_id s.run_id id))

pending_key-parts :
    (a b : RunScope) (id id' : Text)
    → IsPlain a.scope
    → IsPlain b.scope
    → HasNoNul a.run_id
    → HasNoNul b.run_id
    → pending_key a id ≡ pending_key b id'
    → (a.session_group_id ≡ b.session_group_id)
      × (a.workspace_id ≡ b.workspace_id)
      × (a.chat_id ≡ b.chat_id)
      × (a.run_id ≡ b.run_id)
      × (id ≡ id')
pending_key-parts a b id id' p q n m h =
    let e = sym (pending_key-joined a id) ∙ h ∙ pending_key-joined b id' in
    let (g, r) =
      join-injective a.session_group_id _ b.session_group_id _ p.session_group_id q.session_group_id
        e in
    let (w, t) = join-injective a.workspace_id _ b.workspace_id _ p.workspace_id q.workspace_id r in
    let (c, u) = join-injective a.chat_id _ b.chat_id _ p.chat_id q.chat_id t in
    let (r', i) = join-injective a.run_id id b.run_id id' n m u in (g, w, c, r', i)

-- Two pending requests whose session group, workspace, chat and run ids hold no NUL byte share a
-- key only if they are the same request of the same run.
pub pending_key-injective :
    (a b : RunScope) (id id' : Text)
    → IsPlain a.scope
    → IsPlain b.scope
    → HasNoNul a.run_id
    → HasNoNul b.run_id
    → pending_key a id ≡ pending_key b id'
    → (a ≡ b) × (id ≡ id')
pending_key-injective a b id id' p q n m h = ground (arith, pending_key-parts a b id id' p q n m h)
