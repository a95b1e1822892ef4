-- ===== src/Connections/Closing.antt =====
-- remove_connection: the loop of memcpy takes one connection out of the array.
use task_spooler.Base.{
  ◌+◌, ◌-◌, ◌≡◌, refl, sym, ◌∙◌, ap, List, [], ◌∷◌, ◌++◌, some, arith, length, length-append, take,
  get_elem?, set, false,
}
use task_spooler.Base.Run.{ok, ◌>>=◌}
use mathlib.Core.List.{append_assoc}
use task_spooler.State.{ClientConn, Server}
use task_spooler.Connections.{shift_loop, remove_connection}

module _ {ℓ} {A : Type ℓ} where
  get_elem?-append : (a : List A) (x : A) (b : List A) → get_elem? (a ++ x ∷ b) (length a) ≡ some x
  get_elem?-append [] x b = refl
  get_elem?-append (y ∷ a) x b = get_elem?-append a x b

  get_elem?-append_next :
      (a : List A) (x y : A) (b : List A) → get_elem? (a ++ x ∷ y ∷ b) (length a + 1) ≡ some y
  get_elem?-append_next a x y b =
      ap (λ n. get_elem? (a ++ x ∷ y ∷ b) n) (sym (length-append a (x ∷ [])))
      ∙ ap (λ l. get_elem? l (length (a ++ x ∷ []))) (sym (append_assoc a (x ∷ []) (y ∷ b)))
      ∙ get_elem?-append (a ++ x ∷ []) y b

  set-append :
      (a : List A) (x : A) (b : List A) (v : A) → set (a ++ x ∷ b) (length a) v ≡ a ++ v ∷ b
  set-append [] x b v = refl
  set-append (y ∷ a) x b v = ap (λ l. y ∷ l) (set-append a x b v)

  take-append : (a b : List A) → take (length a) (a ++ b) ≡ a
  take-append [] b = refl
  take-append (y ∷ a) b = ap (λ l. y ∷ l) (take-append a b)

-- The loop moves each later connection one place forward; the last place keeps what it held.
shift_loop-append :
    (a : List ClientConn) (c : ClientConn) (b : List ClientConn)
    → (last : ClientConn) × (shift_loop (length b) (length a) (a ++ c ∷ b)
        ≡ ok (a ++ (b ++ last ∷ [])))
unfolding shift_loop
shift_loop-append a c [] = (c, refl)
shift_loop-append a c (d ∷ b) =
    let (last, e) = shift_loop-append (a ++ d ∷ []) d b in
    let e' : shift_loop (length b) (length a + 1) (a ++ d ∷ d ∷ b)
        ≡ ok (a ++ (d ∷ b ++ last ∷ [])) =
      rw
        (
          length-append a (d ∷ []),
          append_assoc a (d ∷ []) (d ∷ b),
          append_assoc a (d ∷ []) (b ++ last ∷ []),
        )
        at e in
    (last, rw (get_elem?-append_next a c d b, set-append a c (d ∷ b) d) e')

shifted :
    (s : Server) (a : List ClientConn) (c : ClientConn) (b : List ClientConn)
    → s.conns ≡ a ++ c ∷ b
    → (shift_loop (length s.conns - 1 - length a) (length a) s.conns >>= λ conns.
        ok (record s { conns = take (length s.conns - 1) conns }))
      ≡ ok (record s { conns = a ++ b })
shifted s a c b e =
    let (last, moved) = shift_loop-append a c b in
    let rounds : length (a ++ c ∷ b) - 1 - length a ≡ length b =
      omega (arith, length-append a (c ∷ b)) in
    let rest : length (a ++ c ∷ b) - 1 ≡ length (a ++ b) =
      omega (arith, length-append a (c ∷ b), length-append a b) in
    let kept : take (length (a ++ b)) (a ++ (b ++ last ∷ [])) ≡ a ++ b =
      rw (← append_assoc a b (last ∷ [])) (take-append (a ++ b) (last ∷ [])) in
    rw (e, rounds, moved, rest, kept) refl

-- A connection without a job is taken out of the array, and the others keep their order.
pub remove_connection_lem :
    (s : Server) (a : List ClientConn) (c : ClientConn) (b : List ClientConn)
    → s.conns ≡ a ++ c ∷ b
    → c.hasjob ≡ false
    → remove_connection (length a) s ≡ ok (record s { conns = a ++ b })
unfolding remove_connection
remove_connection_lem s a c b e idle =
    let at : get_elem? s.conns (length a) ≡ some c = rw e (get_elem?-append a c b) in
    rw (at, idle) (shifted s a c b e)
