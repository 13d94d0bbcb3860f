-- ===== src/Appserver/Accounts.antt =====
-- gateway/internal/appserver/dispatcher.go: the result channel of each call, and where its one result
-- stands.
use codex_runtime.Base.{
  ℕ, ◌+◌, ◌<◌, ◌≡◌, refl, Text, text_eq_iff, Bool, true, ◌==◌, some, List, [], ◌∷◌, length,
  length-append, Map, lookup, insert, remove, count_values, one_if, HasKeys, HasKeys-insert,
  HasKeys-remove, lookup-insert, lookup-remove, count-insert_like, count-remove, strconv_uint, ltb,
  err, arith, inl, inr, Option-cases, if-cases, remove-empty, lookup-empty, ◌≤◌,
}
use codex_runtime.Appserver.Rpc.{Codec, RpcMessage, must_id}
use codex_runtime.Appserver.Dispatcher.{
  DispatchError, PendingCall, CallResult, Dispatcher, send_result, fail_each, close_with_error,
  remove_pending,
}
use codex_runtime.Appserver.Responses.{deliver}

abbrev pub goes_to : ℕ → PendingCall → Bool
goes_to c call = call.result == c

abbrev pub times : ℕ → List ℕ → ℕ
times c [] = 0
times c (x ∷ xs) = one_if (x == c) + times c xs

-- How often a channel is due a result, has got one, or was given up.
abbrev pub account : ℕ → Dispatcher → ℕ
account c d = count_values (goes_to c) d.pending + length (d.results c) + times c d.withdrawn

abbrev pub id_bound : ℕ
id_bound = 18446744073709551616

-- Each call stands under its own id, and every channel that was made is accounted for once.
pub record IsSettled (n : ℕ) (d : Dispatcher) : Type 0 where
  pub bounded : d.next_id ≤ n
  pub unique : HasKeys d.pending
  pub at_id :
      (key : Text) (call : PendingCall)
      → lookup key d.pending ≡ some call
      → (key ≡ strconv_uint call.id) × (call.id < d.next_id)
  pub once : (c : ℕ) → account c d ≡ one_if (ltb c d.next_channel)
  pub drained : d.closed ≡ true → d.pending ≡ []

send_result-length :
    (c j : ℕ) (r : CallResult) (results : ℕ → List CallResult)
    → length (send_result c r results j) ≡ length (results j) + one_if (c == j)
unfolding send_result
send_result-length c j r results = ground (arith, length-append (results j) (r ∷ []))

fail_each-length :
    (e : DispatchError) (calls : Map PendingCall) (c : ℕ) (results : ℕ → List CallResult)
    → length (fail_each e calls results c) ≡ length (results c) + count_values (goes_to c) calls
unfolding fail_each count_values
fail_each-length e [] c results = omega arith
fail_each-length e ((k, call) ∷ calls) c results = omega (
  arith,
  fail_each-length e calls c (send_result call.result (err e) results),
  send_result-length call.result c (err e) results,
)

pub close_with_error-IsSettled :
    {n : ℕ} (e : DispatchError) (d : Dispatcher)
    → IsSettled n d
    → IsSettled n (close_with_error e d)
unfolding close_with_error lookup count_values
close_with_error-IsSettled e d v =
    if-cases (IsSettled _) d.closed _ _ (λ p. v)
      (λ p. record {
        bounded = v.bounded;
        unique = tt;
        at_id = λ key call h. cc;
        once = λ c. omega (arith, v.once c, fail_each-length e d.pending c d.results);
        drained = λ q. refl;
      })

-- A call stops waiting: its result is sent, or its caller gives it up.
pub deliver-IsSettled :
    {n : ℕ} (codec : Codec) (message : RpcMessage) (key : Text) (call : PendingCall)
    (d : Dispatcher)
    → lookup key d.pending ≡ some call
    → IsSettled n d
    → IsSettled n (deliver codec message call (record d { pending = remove key d.pending }))
unfolding deliver
deliver-IsSettled codec message key call d h v = record {
  bounded = v.bounded;
  unique = HasKeys-remove key d.pending v.unique;
  at_id = λ k c p. v.at_id k c (ground (arith, lookup-remove key k d.pending));
  once = λ c. omega (
    arith,
    v.once c,
    send_result-length call.result c _ d.results,
    count-remove (goes_to c) key call d.pending v.unique h,
  );
  drained = λ q. remove-empty key d.pending (v.drained q);
}

pub remove_pending-IsSettled :
    {n : ℕ} (id : ℕ) (d : Dispatcher) → IsSettled n d → IsSettled n (remove_pending id d).0
unfolding remove_pending
remove_pending-IsSettled id d v = elim (Option-cases (lookup (must_id id) d.pending)) [
  | inl p ↦ rw p v
  | inr (call, p) ↦ rw p (record {
    bounded = v.bounded;
    unique = HasKeys-remove (must_id id) d.pending v.unique;
    at_id = λ k c q. v.at_id k c (ground (arith, lookup-remove (must_id id) k d.pending));
    once = λ c.
        omega (arith, v.once c, count-remove (goes_to c) (must_id id) call d.pending v.unique p);
    drained = λ q. remove-empty (must_id id) d.pending (v.drained q);
  })
]

pub bind-IsSettled :
    {n : ℕ} (provisional_id key : Text) (call : PendingCall) (d : Dispatcher)
    → lookup key d.pending ≡ some call
    → IsSettled n d
    → IsSettled n (record d {
      pending = insert key (record call { provisional_id = provisional_id }) d.pending;
    })
bind-IsSettled provisional_id key call d h v =
    let bound : PendingCall = record call { provisional_id = provisional_id } in
    record {
      bounded = v.bounded;
      unique = HasKeys-insert key bound d.pending v.unique;
      at_id = λ k c p. ground (
        arith,
        lookup-insert key k bound d.pending,
        text_eq_iff key k,
        v.at_id k c,
        v.at_id key call h,
      );
      once = λ c.
          omega (arith, v.once c, count-insert_like (goes_to c) key bound call d.pending h refl);
      drained = λ q. ground (arith, lookup-empty key d.pending (v.drained q), h);
    }
