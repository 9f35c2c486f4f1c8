-- ===== src/Buffer/Refine.antt =====
-- The buffer of networker/net/Buffer.h as its clients see it: a sequence of bytes. `Op` names the
-- calls that a client makes, and `spec` says what they do to the sequence.
use mathlib.Core.Option
use network_program_base_fra.Prelude.{
  ℕ, ◌+◌, ◌-◌, ◌^◌, ◌<◌, ◌≡◌, refl, ap, ◌∙◌, inl, inr, some, none, Option, List, [], ◌∷◌, ◌++◌,
  arith, length, take, drop, leb, if◌then◌else◌, Bool-cases, leb→le, ◌>>=◌,
}
use network_program_base_fra.Buffer.{Buffer, readable, append, retrieve, unwrite}
use network_program_base_fra.Buffer.Valid.{IsValid}
use network_program_base_fra.Buffer.Contents.{
  append_lem, retrieve_lem, retrieve_short, unwrite_lem, unwrite_short,
}

pub data Op : Type 0 where
  put : List ℕ → Op
  get undo : ℕ → Op

abbrev pub step : Op → Buffer → Option Buffer
step (put bytes) b = append bytes b
step (get len) b = retrieve len b
step (undo len) b = unwrite len b

unfoldable pub run : List Op → Buffer → Option Buffer
run [] b = some b
run (op ∷ ops) b = step op b >>= run ops

abbrev pub spec : Op → List ℕ → Option (List ℕ)
spec (put bytes) xs = some (xs ++ bytes)
spec (get len) xs = if leb len (length xs) then some (drop len xs) else none
spec (undo len) xs = if leb len (length xs) then some (take (length xs - len) xs) else none

unfoldable pub run_spec : List Op → List ℕ → Option (List ℕ)
run_spec [] xs = some xs
run_spec (op ∷ ops) xs = spec op xs >>= run_spec ops

-- The bytes that the calls put in, all together.
unfoldable pub volume : List Op → ℕ
volume [] = 0
volume (put bytes ∷ ops) = length bytes + volume ops
volume (op ∷ ops) = volume ops

-- For every sequence of append, retrieve and unwrite calls on a valid buffer whose storage stays
-- below 2 ^ 63 bytes with all that is appended: the calls fail an assertion exactly if the
-- specification on the sequence of readable bytes fails, and otherwise the readable bytes at the
-- end are those of the specification.
pub run_refines :
    (ops : List Op) (b : Buffer)
    → IsValid b
    → length b.storage + volume ops < 2 ^ 63
    → Option.map (λ b'. readable b') (run ops b) ≡ run_spec ops (readable b)
unfolding run run_spec volume
run_refines [] b v fits = refl
run_refines (put bytes ∷ ops) b v fits =
    let (b', e, h) = append_lem bytes b v (omega arith) in
    rw e (run_refines ops b' h.valid (omega (arith, h.bound)) ∙ ap (run_spec ops) h.bytes)
run_refines (get len ∷ ops) b v fits = elim (Bool-cases (leb len (length (readable b)))) [
  | inl there ↦
      let (b', e, h) = retrieve_lem len b v (leb→le _ _ there) in
      rw (e, there)
        (run_refines ops b' h.valid (omega (arith, h.bound)) ∙ ap (run_spec ops) h.bytes)
  | inr short ↦ rw (retrieve_short len b v (ground arith), short) refl
]
run_refines (undo len ∷ ops) b v fits = elim (Bool-cases (leb len (length (readable b)))) [
  | inl there ↦
      let (b', e, h) = unwrite_lem len b v (leb→le _ _ there) in
      rw (e, there)
        (run_refines ops b' h.valid (omega (arith, h.bound)) ∙ ap (run_spec ops) h.bytes)
  | inr short ↦ rw (unwrite_short len b v (ground arith), short) refl
]
