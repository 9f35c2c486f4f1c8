-- ===== src/AsyncLogging/Laws.antt =====
-- The invariant of the two threads of networker/base/AsyncLogging.cpp: whoever needs a buffer
-- finds one.
use network_program_base_fra.Prelude.{
  ℕ, ◌≤◌, ◌<◌, ◌≡◌, ◌⊎◌, refl, sym, ap, ◌∙◌, none, some, List, [], ◌∷◌, ◌++◌, length, ltb, arith,
  inl, inr, Bool-cases, lt→ltb, append-nil, append_assoc, length-append,
}
use network_program_base_fra.AsyncLogging.{
  AsyncLogging, large_buffer, avail, buffer_append, append, or_new, concat,
}

-- Between two iterations.
pub record IsIdle (c : AsyncLogging) : Type 0 where
  pub batch : c.buffers_to_write ≡ []
  pub first : c.new_buffer1 ≡ some []
  pub second : c.new_buffer2 ≡ some []

-- Between the critical section and the end of an iteration.
pub record IsBusy (c : AsyncLogging) : Type 0 where
  pub batch : 0 < length c.buffers_to_write
  pub first : c.new_buffer1 ≡ none
  pub second :
      (c.new_buffer2 ≡ some []) ⊎ ((c.new_buffer2 ≡ none) × (2 ≤ length c.buffers_to_write))

-- The front has a buffer to write to, and an empty one in reserve unless one is full already.
pub record IsReady (c : AsyncLogging) : Type 0 where
  pub current : (b : List ℕ) × (c.current_buffer ≡ some b)
  pub next : (c.next_buffer ≡ some []) ⊎ ((c.next_buffer ≡ none) × (0 < length c.buffers))

-- Everything that was appended and not dropped, in its order.
unfoldable pub stream : AsyncLogging → List ℕ
stream c = c.written ++ (concat c.buffers_to_write ++ (concat c.buffers ++ or_new c.current_buffer))

concat-append : (us bs : List (List ℕ)) → concat (us ++ bs) ≡ concat us ++ concat bs
unfolding concat
concat-append [] bs = refl
concat-append (a ∷ us) bs =
    ap (λ xs. a ++ xs) (concat-append us bs) ∙ sym (append_assoc a (concat us) (concat bs))

pub concat-snoc : (us : List (List ℕ)) (b : List ℕ) → concat (us ++ b ∷ []) ≡ concat us ++ b
unfolding concat
concat-snoc us b = concat-append us (b ∷ []) ∙ ap (λ xs. concat us ++ xs) (append-nil b)

pub record Appended (line : List ℕ) (c c' : AsyncLogging) : Type 0 where
  pub ready : IsReady c'
  pub bytes : stream c' ≡ stream c ++ line
  pub batch : c'.buffers_to_write ≡ c.buffers_to_write
  pub first : c'.new_buffer1 ≡ c.new_buffer1
  pub second : c'.new_buffer2 ≡ c.new_buffer2

next-blank : (c : AsyncLogging) → IsReady c → or_new c.next_buffer ≡ []
next-blank c r = elim r.next [ inl e ↦ ap or_new e | inr e ↦ ap or_new e.0 ]

behind : (w x y z l : List ℕ) → w ++ (x ++ (y ++ (z ++ l))) ≡ (w ++ (x ++ (y ++ z))) ++ l
behind w x y z l =
    ap (λ t. w ++ (x ++ t)) (sym (append_assoc y z l))
    ∙ ap (λ t. w ++ t) (sym (append_assoc x (y ++ z) l))
    ∙ sym (append_assoc w (x ++ (y ++ z)) l)

pub append_lem :
    (line : List ℕ) (c : AsyncLogging)
    → IsReady c
    → length line < large_buffer
    → (c' : AsyncLogging) × (append line c ≡ some c') × Appended line c c'
unfolding append stream buffer_append
append_lem line c r short =
    let (b, e) = r.current in
    elim (Bool-cases (ltb (length line) (avail b))) [
      | inl fits ↦ (
        record c { current_buffer = some (b ++ line) },
        rw (e, fits) refl,
        record {
          ready = record { current = (b ++ line, refl); next = r.next };
          bytes =
              behind c.written (concat c.buffers_to_write) (concat c.buffers) b line
              ∙ ap
                  (λ o.
                    (c.written ++ (concat c.buffers_to_write ++ (concat c.buffers ++ or_new o)))
                    ++ line)
                  (sym e);
          batch = refl;
          first = refl;
          second = refl;
        },
      )
      | inr full ↦ (
        record c { buffers = c.buffers ++ b ∷ []; current_buffer = some line; next_buffer = none },
        rw (e, full, next-blank c r, lt→ltb (length line) large_buffer short) refl,
        record {
          ready = record {
            current = (line, refl);
            next = inr (refl, omega (arith, length-append c.buffers (b ∷ [])));
          };
          bytes =
              ap (λ t. c.written ++ (concat c.buffers_to_write ++ (t ++ line)))
                (concat-snoc c.buffers b)
              ∙ ap (λ t. c.written ++ (concat c.buffers_to_write ++ t))
                  (append_assoc (concat c.buffers) b line)
              ∙ behind c.written (concat c.buffers_to_write) (concat c.buffers) b line
              ∙ ap
                  (λ o.
                    (c.written ++ (concat c.buffers_to_write ++ (concat c.buffers ++ or_new o)))
                    ++ line)
                  (sym e);
          batch = refl;
          first = refl;
          second = refl;
        },
      )
    ]
