-- ===== src/Channel/Dispatch.antt =====
-- Which callbacks `handleEvent` of networker/net/Channel.cpp makes.
use network_program_base_fra.Prelude.{
  ℕ, ◌≡◌, ◌<◌, refl, ◌+◌, Bool, true, false, not, ◌&&◌, ◌||◌, List, [], ◌∷◌, ◌++◌, arith,
  if◌then◌else◌, ◌∙◌,
}
use network_program_base_fra.Channel.{
  Channel, Callback, close_callback, error_callback, read_callback, write_callback, has, pollin,
  pollhup, pollout, pollerr, pollnval, pollpri, pollrdhup, when, handle_event,
  handle_event_with_guard,
}

abbrev order : Callback → ℕ
order close_callback = 0
order error_callback = 1
order read_callback = 2
order write_callback = 3

-- In the order above, each at most once.
abbrev InOrder : List Callback → Type 0
InOrder [] = Unit
InOrder (k ∷ []) = Unit
InOrder (j ∷ k ∷ ks) = (order j < order k) × InOrder (k ∷ ks)

abbrev mentions : Callback → List Callback → Bool
mentions k [] = false
mentions close_callback (close_callback ∷ ks) = true
mentions error_callback (error_callback ∷ ks) = true
mentions read_callback (read_callback ∷ ks) = true
mentions write_callback (write_callback ∷ ks) = true
mentions k (j ∷ ks) = mentions k ks

-- The channel's callbacks by kind, and what each kind waits for.
abbrev is_set : Callback → Channel → Bool
is_set close_callback c = c.has_close
is_set error_callback c = c.has_error
is_set read_callback c = c.has_read
is_set write_callback c = c.has_write

abbrev is_due : Callback → ℕ → Bool
is_due close_callback r = has r pollhup && not (has r pollin)
is_due error_callback r = has r (pollerr + pollnval)
is_due read_callback r = has r (pollin + pollpri + pollrdhup)
is_due write_callback r = has r pollout

pub record Dispatches (may_call : Bool) (c : Channel) (ks : List Callback) : Type 0 where
  pub in_order : InOrder ks
  pub made : (k : Callback) → mentions k ks ≡ (may_call && (is_due k c.revents && is_set k c))

-- The four callbacks, each if its flag says so.
abbrev chain : Bool → Bool → Bool → Bool → List Callback
chain a b c d =
    when a close_callback
    ++ (when b error_callback ++ (when c read_callback ++ when d write_callback))

chain-InOrder : (a b c d : Bool) → InOrder (chain a b c d)
chain-InOrder true true true true = omega arith
chain-InOrder true true true false = omega arith
chain-InOrder true true false true = omega arith
chain-InOrder true true false false = omega arith
chain-InOrder true false true true = omega arith
chain-InOrder true false true false = omega arith
chain-InOrder true false false true = omega arith
chain-InOrder true false false false = tt
chain-InOrder false true true true = omega arith
chain-InOrder false true true false = omega arith
chain-InOrder false true false true = omega arith
chain-InOrder false true false false = tt
chain-InOrder false false true true = omega arith
chain-InOrder false false true false = tt
chain-InOrder false false false true = tt
chain-InOrder false false false false = tt

abbrev pick : Callback → Bool → Bool → Bool → Bool → Bool
pick close_callback a b c d = a
pick error_callback a b c d = b
pick read_callback a b c d = c
pick write_callback a b c d = d

mentions-chain : (k : Callback) (a b c d : Bool) → mentions k (chain a b c d) ≡ pick k a b c d
mentions-chain close_callback true b c d = refl
mentions-chain close_callback false true true true = refl
mentions-chain close_callback false true true false = refl
mentions-chain close_callback false true false true = refl
mentions-chain close_callback false true false false = refl
mentions-chain close_callback false false true true = refl
mentions-chain close_callback false false true false = refl
mentions-chain close_callback false false false true = refl
mentions-chain close_callback false false false false = refl
mentions-chain error_callback true true c d = refl
mentions-chain error_callback false true c d = refl
mentions-chain error_callback true false true true = refl
mentions-chain error_callback true false true false = refl
mentions-chain error_callback true false false true = refl
mentions-chain error_callback true false false false = refl
mentions-chain error_callback false false true true = refl
mentions-chain error_callback false false true false = refl
mentions-chain error_callback false false false true = refl
mentions-chain error_callback false false false false = refl
mentions-chain read_callback true true true d = refl
mentions-chain read_callback true true false true = refl
mentions-chain read_callback true true false false = refl
mentions-chain read_callback true false true d = refl
mentions-chain read_callback true false false true = refl
mentions-chain read_callback true false false false = refl
mentions-chain read_callback false true true d = refl
mentions-chain read_callback false true false true = refl
mentions-chain read_callback false true false false = refl
mentions-chain read_callback false false true d = refl
mentions-chain read_callback false false false true = refl
mentions-chain read_callback false false false false = refl
mentions-chain write_callback true true true true = refl
mentions-chain write_callback true true true false = refl
mentions-chain write_callback true true false true = refl
mentions-chain write_callback true true false false = refl
mentions-chain write_callback true false true true = refl
mentions-chain write_callback true false true false = refl
mentions-chain write_callback true false false true = refl
mentions-chain write_callback true false false false = refl
mentions-chain write_callback false true true true = refl
mentions-chain write_callback false true true false = refl
mentions-chain write_callback false true false true = refl
mentions-chain write_callback false true false false = refl
mentions-chain write_callback false false true true = refl
mentions-chain write_callback false false true false = refl
mentions-chain write_callback false false false true = refl
mentions-chain write_callback false false false false = refl

guarded : (c : Channel) → Dispatches true c (handle_event_with_guard c)
unfolding handle_event_with_guard
guarded c =
    let due : Callback → Bool = λ k. is_due k c.revents && is_set k c in
    let a : Bool = has c.revents pollhup && not (has c.revents pollin) && c.has_close in
    let b : Bool = has c.revents 0x28 && c.has_error in
    let d : Bool = has c.revents 0x2003 && c.has_read in
    let e : Bool = has c.revents pollout && c.has_write in
    record { in_order = chain-InOrder a b d e; made = made a b d e refl refl refl refl }
  where
    made :
        (a b d e : Bool)
        → a ≡ (is_due close_callback c.revents && c.has_close)
        → b ≡ (is_due error_callback c.revents && c.has_error)
        → d ≡ (is_due read_callback c.revents && c.has_read)
        → e ≡ (is_due write_callback c.revents && c.has_write)
        → (k : Callback) → mentions k (chain a b d e) ≡ (is_due k c.revents && is_set k c)
    made a b d e p q r s close_callback = mentions-chain close_callback a b d e ∙ p
    made a b d e p q r s error_callback = mentions-chain error_callback a b d e ∙ q
    made a b d e p q r s read_callback = mentions-chain read_callback a b d e ∙ r
    made a b d e p q r s write_callback = mentions-chain write_callback a b d e ∙ s

gated :
    (t alive : Bool) (c : Channel)
    → Dispatches
        (not t || alive)
        c
        (if t then (if alive then handle_event_with_guard c else []) else handle_event_with_guard c)
gated true true c = guarded c
gated true false c = record { in_order = tt; made = λ k. refl }
gated false alive c = guarded c

-- handleEvent makes a callback exactly if its function is set and the returned events ask for it
-- (close: a hang-up with nothing to read), each at most once, in the order close, error, read,
-- write; and none if the channel is tied to an owner that is gone.
pub handle_event_lem :
    (alive : Bool) (c : Channel) → Dispatches (not c.tied || alive) c (handle_event alive c)
unfolding handle_event
handle_event_lem alive c = gated c.tied alive c
