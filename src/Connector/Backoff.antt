-- ===== src/Connector/Backoff.antt =====
-- The delays between the attempts of networker/net/Connector.cpp.
use network_program_base_fra.Prelude.{
  ℕ, zero, suc, ◌*◌, ◌^◌, ◌≡◌, refl, sym, ap, ◌∙◌, true, List, [], ◌∷◌, ◌++◌, arith, min, length,
  append-nil, append_assoc,
}
use network_program_base_fra.Connector.{Connector, retry}

-- Attempts that fail one after the other, each with its socket.
unfoldable pub retry_all : List ℕ → Connector → Connector
retry_all [] c = c
retry_all (sockfd ∷ fds) c = retry_all fds (retry sockfd c)

-- Half a second, doubled each time, and at most thirty seconds.
abbrev pub delay : ℕ → ℕ
delay k = min (500 * 2 ^ k) 30000

abbrev pub delays : ℕ → ℕ → List ℕ
delays k zero = []
delays k (suc n) = delay k ∷ delays (suc k) n

doubles : (k : ℕ) → min (delay k * 2) 30000 ≡ delay (suc k)
doubles k = let p : 2 ^ suc k ≡ 2 * 2 ^ k = omega arith in omega (arith, p)

retry-wanted :
    (sockfd k : ℕ) (c : Connector)
    → c.connect_flag ≡ true
    → c.retry_delay_ms ≡ delay k
    → ((retry sockfd c).connect_flag ≡ true)
      × ((retry sockfd c).retry_delay_ms ≡ delay (suc k))
      × ((retry sockfd c).timers ≡ c.timers ++ delay k ∷ [])
unfolding retry
retry-wanted sockfd k c w e = (w, rw (w, e) (doubles k), rw (w, e) refl)

-- Attempts that fail one after the other on a connector that is still wanted, with the delay of
-- the k-th attempt (k counted from 0): the timers that are set are for 500 ms doubled k times,
-- k + 1 times, and so on, each at most 30 s.
pub backoff_lem :
    (fds : List ℕ) (k : ℕ) (c : Connector)
    → c.connect_flag ≡ true
    → c.retry_delay_ms ≡ delay k
    → (retry_all fds c).timers ≡ c.timers ++ delays k (length fds)
unfolding retry_all
backoff_lem [] k c w e = sym (append-nil c.timers)
backoff_lem (sockfd ∷ fds) k c w e =
    let (w', e', t) = retry-wanted sockfd k c w e in
    backoff_lem fds (suc k) (retry sockfd c) w' e'
    ∙ ap (λ xs. xs ++ delays (suc k) (length fds)) t
    ∙ append_assoc c.timers (delay k ∷ []) (delays (suc k) (length fds))
