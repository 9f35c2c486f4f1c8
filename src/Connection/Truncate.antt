-- ===== src/Connection/Truncate.antt =====
-- What of a message arrives that another thread gives to `send` of
-- networker/net/TcpConnection.cpp.
use network_program_base_fra.Prelude.{
  ℕ, ◌≡◌, refl, ap, ◌∙◌, Bool, true, false, not, ◌&&◌, some, List, [], ◌∷◌, ◌++◌, ◌==◌,
  if◌then◌else◌, Bool-cases, inl, inr, ◌>>=◌, arith,
}
use network_program_base_fra.Connection.{
  Connection, Functor, is_connected, WriteResult, send, send_in_loop, queue_in_loop, send_functor,
  c_string,
}
use network_program_base_fra.Connection.Stream.{run_first}

abbrev pub has_no_zero : List ℕ → Bool
has_no_zero [] = true
has_no_zero (b ∷ bs) = not (b == 0) && has_no_zero bs

c_string-before : (xs ys : List ℕ) → has_no_zero xs ≡ true → c_string (xs ++ 0 ∷ ys) ≡ xs
unfolding c_string
c_string-before [] ys h = refl
c_string-before (x ∷ xs) ys h = elim (Bool-cases (x == 0)) [
  | inl e ↦ absurd (ground arith)
  | inr e ↦
      let rest : has_no_zero xs ≡ true = ground arith in
      rw e (ap (λ t. x ∷ t) (c_string-before xs ys rest))
]

-- A message with a zero byte that another thread sends on a connected connection with nothing
-- queued before: when the loop runs what was queued, sendInLoop gets the bytes before the zero
-- byte only; it and what follows are lost.
pub queued_send-truncated :
    (result now : WriteResult) (xs ys : List ℕ) (c : Connection)
    → is_connected c.state ≡ true
    → c.queued ≡ []
    → has_no_zero xs ≡ true
    → (send false now (xs ++ 0 ∷ ys) c >>= λ d. run_first result d.queued d)
      ≡ send_in_loop result xs (record c { queued = [] })
unfolding send
queued_send-truncated result now xs ys c up none_queued h =
    let f : Functor = send_functor (xs ++ 0 ∷ ys) in
    ap (λ b. (if b then some (queue_in_loop f c) else some c) >>= λ d. run_first result d.queued d)
      up
    ∙ ap (λ q. run_first result (q ++ f ∷ []) (record c { queued = q ++ f ∷ [] })) none_queued
    ∙ ap (λ bytes. send_in_loop result bytes (record c { queued = [] })) (c_string-before xs ys h)
