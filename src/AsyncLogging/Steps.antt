-- ===== src/AsyncLogging/Steps.antt =====
-- The two threads of networker/base/AsyncLogging.cpp, in any order of their critical sections.
use network_program_base_fra.Prelude.{
  ℕ, suc, ◌≤◌, ◌<◌, ◌≡◌, refl, sym, ap, ap₂, ◌∙◌, false, Option, none, some, List, [], ◌∷◌, ◌++◌,
  length, ltb, arith, inl, inr, Bool-cases, append-nil, append_assoc, length-append, length-take,
  subst, min,
}
use network_program_base_fra.AsyncLogging.{
  new, AsyncLogging, large_buffer, append, or_new, is_empty, collect, concat, pop_back, kept, noted,
  at_most_two, finish,
}
use network_program_base_fra.AsyncLogging.Laws.{
  IsIdle, IsBusy, IsReady, stream, concat-snoc, Appended, append_lem,
}

pub record Collected (c c' : AsyncLogging) : Type 0 where
  pub ready : IsReady c'
  pub busy : IsBusy c'
  pub bytes : stream c' ≡ stream c

pub collect_lem :
    (c : AsyncLogging)
    → IsReady c
    → IsIdle c
    → (c' : AsyncLogging) × (collect c ≡ some c') × Collected c c'
unfolding collect stream concat
collect_lem c r i =
    let (b, e) = r.current in
    let bytes : c.written ++ (concat (c.buffers ++ b ∷ []) ++ ([] ++ []))
        ≡ c.written
          ++ (concat c.buffers_to_write ++ (concat c.buffers ++ or_new c.current_buffer)) =
      ap (λ t. c.written ++ t) (append-nil _ ∙ concat-snoc c.buffers b)
      ∙ ap₂ (λ s o. c.written ++ (concat s ++ (concat c.buffers ++ or_new o))) (sym i.batch)
          (sym e) in
    elim r.next [
      | inl n ↦ (
        record c {
          buffers_to_write = c.buffers ++ b ∷ [];
          buffers = [];
          current_buffer = some [];
          new_buffer1 = none;
          next_buffer = some [];
          new_buffer2 = some [];
        },
        rw (i.first, i.second, i.batch, e, n) refl,
        record {
          ready = record { current = ([], refl); next = inl refl };
          busy = record {
            batch = omega (arith, length-append c.buffers (b ∷ []));
            first = refl;
            second = inl refl;
          };
          bytes = bytes;
        },
      )
      | inr n ↦ (
        record c {
          buffers_to_write = c.buffers ++ b ∷ [];
          buffers = [];
          current_buffer = some [];
          new_buffer1 = none;
          next_buffer = some [];
          new_buffer2 = none;
        },
        rw (i.first, i.second, i.batch, e, n.0) refl,
        record {
          ready = record { current = ([], refl); next = inl refl };
          busy = record {
            batch = omega (arith, length-append c.buffers (b ∷ []));
            first = refl;
            second = inr (refl, omega (arith, n.1, length-append c.buffers (b ∷ [])));
          };
          bytes = bytes;
        },
      )
    ]

pop_back_lem :
    (bs : List (List ℕ))
    → 0 < length bs
    → (rest : List (List ℕ)) × (pop_back bs ≡ some rest) × (length bs ≡ suc (length rest))
pop_back_lem [] h = absurd (omega arith)
pop_back_lem (b ∷ []) h = ([], refl, refl)
pop_back_lem (a ∷ b ∷ bs) h =
    let (rest, e, l) = pop_back_lem (b ∷ bs) (omega arith) in (a ∷ rest, rw e refl, ap suc l)

-- What is left for the two spare buffers.
at_most_two_lem : (bs : List (List ℕ)) → min 2 (length bs) ≤ length (at_most_two bs)
at_most_two_lem bs = elim (Bool-cases (ltb 2 (length bs))) [
  | inl many ↦ rw many (omega (arith, length-take 2 bs))
  | inr few ↦ rw few (omega arith)
]

kept_lem : (bs : List (List ℕ)) → min 2 (length bs) ≤ length (kept bs)
kept_lem bs = elim (Bool-cases (ltb 25 (length bs))) [
  | inl many ↦ rw many (omega (arith, length-take 2 bs))
  | inr few ↦ rw few (omega arith)
]

not_empty : (bs : List (List ℕ)) → 0 < length bs → is_empty bs ≡ false
not_empty [] h = absurd (omega arith)
not_empty (b ∷ bs) h = refl

pub record Finished (note : List ℕ) (c c' : AsyncLogging) : Type 0 where
  pub ready : IsReady c'
  pub idle : IsIdle c'
  pub written :
      c'.written ≡ c.written ++ (noted note c.buffers_to_write ++ concat (kept c.buffers_to_write))
  pub rest : c'.buffers ≡ c.buffers
  pub current : c'.current_buffer ≡ c.current_buffer

abbrev finished : List ℕ → AsyncLogging → AsyncLogging
finished note c = record c {
  written = c.written ++ (noted note c.buffers_to_write ++ concat (kept c.buffers_to_write));
  new_buffer1 = some [];
  new_buffer2 = some [];
  buffers_to_write = [];
}

finished-Finished :
    (note : List ℕ) (c : AsyncLogging) → IsReady c → Finished note c (finished note c)
finished-Finished note c r = record {
  ready = record { current = r.current; next = r.next };
  idle = record { batch = refl; first = refl; second = refl };
  written = refl;
  rest = refl;
  current = refl;
}

-- The end of an iteration of threadFunc, once its critical section has run: no assertion fails,
-- whatever was appended meanwhile. The buffers are written in their order after what was written
-- before, or, if there are more than 25, a note and the first two of them; both spare buffers are
-- there again and empty.
pub finish_lem :
    (note : List ℕ) (c : AsyncLogging)
    → IsReady c
    → IsBusy c
    → (c' : AsyncLogging) × (finish note c ≡ some c') × Finished note c c'
unfolding finish
finish_lem note c r b =
    let bs : List (List ℕ) = c.buffers_to_write in
    let two : List (List ℕ) = at_most_two (kept bs) in
    let k = kept_lem bs in
    let t = at_most_two_lem (kept bs) in
    let (rest, e, l) = pop_back_lem two (omega (arith, b.batch)) in
    elim b.second [
      | inl s ↦ (
        finished note c,
        rw (not_empty bs b.batch, b.first, e, s) refl,
        finished-Finished note c r,
      )
      | inr s ↦
          let (rest', f, m) = pop_back_lem rest (omega (arith, s.1)) in
          (
            finished note c,
            rw (not_empty bs b.batch, b.first, e, s.0, f) refl,
            finished-Finished note c r,
          )
    ]

-- The phases of the writer's thread.
pub data Event : Type 0 where
  appends : List ℕ → Event
  collects : Event
  finishes : List ℕ → Event

abbrev pub step : Event → AsyncLogging → Option AsyncLogging
step (appends line) c = append line c
step collects c = collect c
step (finishes note) c = finish note c

-- Where the writer's thread stands: before its critical section, or with a batch to write.
pub data Phase : Type 0 where
  before_section writing : Phase

abbrev pub next_phase : Event → Phase → Phase
next_phase (appends line) p = p
next_phase collects p = writing
next_phase (finishes note) p = before_section

-- Lines fit a buffer, and the writer's thread does one thing after the other, with at most 25
-- buffers in a batch.
abbrev pub Possible : Event → Phase → AsyncLogging → Type 0
Possible (appends line) p c = length line < large_buffer
Possible collects p c = p ≡ before_section
Possible (finishes note) p c = (p ≡ writing) × (length c.buffers_to_write ≤ 25)

abbrev pub added : Event → List ℕ
added (appends line) = line
added e = []

abbrev pub Stands : Phase → AsyncLogging → Type 0
Stands before_section c = IsIdle c
Stands writing c = IsBusy c

pub record IsValid (p : Phase) (c : AsyncLogging) : Type 0 where
  pub ready : IsReady c
  pub stands : Stands p c

keeps_phase :
    {line : List ℕ} {c c' : AsyncLogging} (p : Phase)
    → Appended line c c'
    → Stands p c
    → Stands p c'
keeps_phase before_section a i = record {
  batch = a.batch ∙ i.batch;
  first = a.first ∙ i.first;
  second = a.second ∙ i.second;
}
keeps_phase writing a b = record {
  batch = subst (λ bs. 0 < length bs) (sym a.batch) b.batch;
  first = a.first ∙ b.first;
  second = elim b.second [
    | inl s ↦ inl (a.second ∙ s)
    | inr s ↦ inr (a.second ∙ s.0, subst (λ bs. 2 ≤ length bs) (sym a.batch) s.1)
  ];
}

-- Where `threadFunc` begins.
pub new-IsValid : IsValid before_section new
unfolding new
new-IsValid = record {
  ready = record { current = ([], refl); next = inl refl };
  stands = record { batch = refl; first = refl; second = refl };
}

kept-few :
    (note : List ℕ) (bs : List (List ℕ))
    → length bs ≤ 25
    → noted note bs ++ concat (kept bs) ≡ concat bs
kept-few note bs h = let few : ltb 25 (length bs) ≡ false = ground arith in rw few refl

written_all :
    (note : List ℕ) (c c' : AsyncLogging)
    → Finished note c c'
    → length c.buffers_to_write ≤ 25
    → stream c' ≡ stream c ++ []
unfolding stream concat
written_all note c c' f few =
    let tail : List ℕ = concat c.buffers ++ or_new c.current_buffer in
    let w : c'.written ≡ c.written ++ concat c.buffers_to_write =
      f.written ∙ ap (λ xs. c.written ++ xs) (kept-few note c.buffers_to_write few) in
    ap₂ ◌++◌ w (
      ap₂ (λ bs xs. concat bs ++ xs) f.idle.batch
        (ap₂ (λ bs o. concat bs ++ or_new o) f.rest f.current))
    ∙ append_assoc c.written (concat c.buffers_to_write) tail
    ∙ sym (append-nil (c.written ++ (concat c.buffers_to_write ++ tail)))

-- Lines that fit a buffer, appended by any threads between the critical sections of the writer,
-- whose thread goes from its section to writing the batch and back, with at most 25 buffers in a
-- batch: no assertion of the section or of the writing fails, the buffers that the next section
-- asserts are there again after the writing, and what was written with what waits in the buffers
-- is all that was appended, in its order.
pub step_log :
    (e : Event) (p : Phase) (c : AsyncLogging)
    → IsValid p c
    → Possible e p c
    → (c' : AsyncLogging) × (step e c ≡ some c')
      × IsValid (next_phase e p) c'
      × (stream c' ≡ stream c ++ added e)
step_log (appends line) p c v short =
    let (c', e, a) = append_lem line c v.ready short in
    (c', e, record { ready = a.ready; stands = keeps_phase p a v.stands }, a.bytes)
step_log collects p c v at =
    let idle : IsIdle c = subst (λ q. Stands q c) at v.stands in
    let (c', e, k) = collect_lem c v.ready idle in
    (c', e, record { ready = k.ready; stands = k.busy }, k.bytes ∙ sym (append-nil (stream c)))
step_log (finishes note) p c v (at, few) =
    let busy : IsBusy c = subst (λ q. Stands q c) at v.stands in
    let (c', e, f) = finish_lem note c v.ready busy in
    (c', e, record { ready = f.ready; stands = f.idle }, written_all note c c' f few)
