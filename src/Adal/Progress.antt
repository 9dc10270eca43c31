-- ===== src/Adal/Progress.antt =====
-- autorest/adal/token.go: what the calls of `EnsureFreshWithContext` on one token wait for.
use go_autorest.Prelude.{
  ℕ, ◌<◌, ◌≡◌, ◌≢◌, refl, sym, ◌∙◌, subst, none, some, List, [], ◌∷◌, ◌==◌, if-intro, arith, inl,
  inr, Bool-cases, Option-cases,
}
use go_autorest.Adal.Types.{Token, Env, will_expire_in}
use go_autorest.Adal.Goroutines.{
  Place, calling, reading, has_read, waiting, announced, locked, refreshing, returned, Shared, at,
  without, Step, passes, calls, enters, reads, finds_fresh, finds_stale, announces, locks, is_fresh,
  begins, succeeds, callback_fails, fails, Reach, here, next,
}
use go_autorest.Adal.OneRefresh.{Holds, at-elim}

-- the steps that a goroutine may still have to take
abbrev pub left_to_take : Place → ℕ
left_to_take calling = 7
left_to_take reading = 6
left_to_take (has_read t) = 5
left_to_take waiting = 4
left_to_take announced = 3
left_to_take locked = 2
left_to_take refreshing = 1
left_to_take returned = 0

-- the writer holds the lock, or waits for the readers
abbrev Held : Shared → Type 0
Held s = (i : ℕ) → s.writer ≡ some i → Holds (s.place i)

Held-idle :
    (s : Shared) (i : ℕ) (p q : Place)
    → Held s
    → s.place i ≡ p
    → ¬ Holds p
    → (j : ℕ) → s.writer ≡ some j
    → Holds (at s.place i q j)
Held-idle s i p q h e idle j w =
    at-elim Holds s.place i q j
      (λ same. absurd (idle (subst Holds e (subst (λ k. Holds (s.place k)) (sym same) (h j w)))))
      (λ _. h j w)

-- all of the readers hold the read lock
abbrev AllReading : (ℕ → Place) → List ℕ → Type 0
AllReading f [] = Unit {0}
AllReading f (j ∷ js) = (f j ≡ reading) × AllReading f js

-- another goroutine moves
AllReading-idle :
    (f : ℕ → Place) (i : ℕ) (p q : Place) (js : List ℕ)
    → f i ≡ p
    → p ≢ reading
    → AllReading f js
    → AllReading (at f i q) js
AllReading-idle f i p q [] e ne h = tt
AllReading-idle f i p q (j ∷ js) e ne (r, h) = (
  at-elim (λ x. x ≡ reading) f i q j
      (λ same. absurd (ne (sym e ∙ subst (λ k. f k ≡ reading) (sym same) r))) (λ _. r),
  AllReading-idle f i p q js e ne h,
)

AllReading-enters :
    (f : ℕ → Place) (i : ℕ) (js : List ℕ) → AllReading f js → AllReading (at f i reading) js
AllReading-enters f i [] h = tt
AllReading-enters f i (j ∷ js) (r, h) =
    (at-elim (λ x. x ≡ reading) f i reading j (λ _. refl) (λ _. r), AllReading-enters f i js h)

AllReading-leaves :
    (f : ℕ → Place) (i : ℕ) (q : Place) (js : List ℕ)
    → AllReading f js
    → AllReading (at f i q) (without i js)
AllReading-leaves f i q [] h = tt
AllReading-leaves f i q (j ∷ js) (r, h) =
    if-intro (AllReading (at f i q)) (i == j) (λ _. AllReading-leaves f i q js h)
      (λ e. (
        at-elim (λ x. x ≡ reading) f i q j (λ same. ground arith) (λ _. r),
        AllReading-leaves f i q js h,
      ))

-- what holds of the lock in every state
record Locking (s : Shared) : Type 0 where
  held : Held s
  all_reading : AllReading s.place s.readers

module _ {W : Type 0} (env : Env W) (within horizon : ℕ) (Gives : Token → Type 0) where
  Step-Held : {s t : Shared} → Step env within horizon Gives s t → Held s → Held t
  Step-Held {s} (passes n l) h = h
  Step-Held {s} (calls i e) h = Held-idle s i returned calling h e (λ q. q)
  Step-Held {s} (enters i e free) h = Held-idle s i calling reading h e (λ q. q)
  Step-Held {s} (reads i e) h = Held-idle s i reading (has_read s.token) h e (λ q. q)
  Step-Held {s} (finds_fresh i t e fresh) h = Held-idle s i (has_read t) returned h e (λ q. q)
  Step-Held {s} (finds_stale i t e stale) h = Held-idle s i (has_read t) waiting h e (λ q. q)
  Step-Held {s} (announces i e free) h =
      λ j w. at-elim Holds s.place i announced j (λ _. tt) (λ ne. absurd (ne (cc)))
  Step-Held {s} (locks i e empty) h = λ j w. at-elim Holds s.place i locked j (λ _. tt) (λ _. h j w)
  Step-Held {s} (is_fresh i e fresh) h = λ j w. absurd (cc)
  Step-Held {s} (begins i e stale) h =
      λ j w. at-elim Holds s.place i refreshing j (λ _. tt) (λ _. h j w)
  Step-Held {s} (succeeds i t e lasts) h = λ j w. absurd (cc)
  Step-Held {s} (callback_fails i t e lasts) h = λ j w. absurd (cc)
  Step-Held {s} (fails i e) h = λ j w. absurd (cc)

  Step-AllReading :
      {s t : Shared}
      → Step env within horizon Gives s t
      → AllReading s.place s.readers
      → AllReading t.place t.readers
  Step-AllReading {s} (passes n l) h = h
  Step-AllReading {s} (calls i e) h = AllReading-idle s.place i returned calling _ e (λ q. cc) h
  Step-AllReading {s} (enters i e free) h = (
    at-elim (λ x. x ≡ reading) s.place i reading i (λ _. refl) (λ ne. absurd (ne refl)),
    AllReading-enters s.place i s.readers h,
  )
  Step-AllReading {s} (reads i e) h = AllReading-leaves s.place i (has_read s.token) s.readers h
  Step-AllReading {s} (finds_fresh i t e fresh) h =
      AllReading-idle s.place i (has_read t) returned _ e (λ q. cc) h
  Step-AllReading {s} (finds_stale i t e stale) h =
      AllReading-idle s.place i (has_read t) waiting _ e (λ q. cc) h
  Step-AllReading {s} (announces i e free) h =
      AllReading-idle s.place i waiting announced _ e (λ q. cc) h
  Step-AllReading {s} (locks i e empty) h =
      AllReading-idle s.place i announced locked _ e (λ q. cc) h
  Step-AllReading {s} (is_fresh i e fresh) h =
      AllReading-idle s.place i locked returned _ e (λ q. cc) h
  Step-AllReading {s} (begins i e stale) h =
      AllReading-idle s.place i locked refreshing _ e (λ q. cc) h
  Step-AllReading {s} (succeeds i t e lasts) h =
      AllReading-idle s.place i refreshing returned _ e (λ q. cc) h
  Step-AllReading {s} (callback_fails i t e lasts) h =
      AllReading-idle s.place i refreshing returned _ e (λ q. cc) h
  Step-AllReading {s} (fails i e) h = AllReading-idle s.place i refreshing returned _ e (λ q. cc) h

  Reach-Locking : {s t : Shared} → Reach env within horizon Gives s t → Locking s → Locking t
  Reach-Locking here h = h
  Reach-Locking (next r p) h =
      let k = Reach-Locking r h in
      record { held = Step-Held p k.held; all_reading = Step-AllReading p k.all_reading }

  -- a step that one goroutine takes, with fewer left to it, while the others stay
  pub record Advance (s : Shared) : Type 0 where
    pub who : ℕ
    pub after : Shared
    pub step : Step env within horizon Gives s after
    pub fewer : left_to_take (after.place who) < left_to_take (s.place who)
    pub others : (j : ℕ) → who ≢ j → after.place j ≡ s.place j

  fewer_at :
      (s : Shared) (i : ℕ) (p q : Place)
      → s.place i ≡ p
      → left_to_take q < left_to_take p
      → left_to_take (at s.place i q i) < left_to_take (s.place i)
  fewer_at s i p q e l =
      at-elim (λ x. left_to_take x < left_to_take (s.place i)) s.place i q i (λ _. rw e l)
        (λ ne. absurd (ne refl))

  others_at : (s : Shared) (i : ℕ) (q : Place) (j : ℕ) → i ≢ j → at s.place i q j ≡ s.place j
  others_at s i q j ne = at-elim (λ x. x ≡ s.place j) s.place i q j (λ e. absurd (ne e)) (λ _. refl)

  advance :
      (s : Shared) (i : ℕ) (p q : Place) (u : Shared)
      → s.place i ≡ p
      → left_to_take q < left_to_take p
      → u.place ≡ at s.place i q
      → Step env within horizon Gives s u
      → Advance s
  advance s i p q u e l same step = record {
    who = i;
    after = u;
    step = step;
    fewer = rw same (fewer_at s i p q e l);
    others = λ j ne. rw same (others_at s i q j ne);
  }

  -- the next writer, or the first of the readers that it waits for
  announced_advances :
      (s : Shared) (i : ℕ) (js : List ℕ)
      → s.place i ≡ announced
      → s.readers ≡ js
      → AllReading s.place js
      → Advance s
  announced_advances s i [] e r h =
      advance s i announced locked _ e (omega arith) refl (locks i e r)
  announced_advances s i (j ∷ js) e r (f, h) =
      advance s j reading (has_read s.token) _ f (omega arith) refl (reads j f)

  holder_advances :
      (s : Shared) (i : ℕ) (p : Place)
      → s.place i ≡ p
      → Holds p
      → AllReading s.place s.readers
      → Advance s
  holder_advances s i announced e h a = announced_advances s i s.readers e refl a
  holder_advances s i locked e h a = elim (Bool-cases (will_expire_in env within s.token s.now)) [
    | inl stale ↦ advance s i locked refreshing _ e (omega arith) refl (begins i e stale)
    | inr fresh ↦ advance s i locked returned _ e (omega arith) refl (is_fresh i e fresh)
  ]
  holder_advances s i refreshing e h a =
      advance s i refreshing returned _ e (omega arith) refl (fails i e)
  holder_advances s i calling e h a = absurd h
  holder_advances s i reading e h a = absurd h
  holder_advances s i (has_read t) e h a = absurd h
  holder_advances s i waiting e h a = absurd h
  holder_advances s i returned e h a = absurd h

  writer_advances : (s : Shared) (k : ℕ) → s.writer ≡ some k → Locking s → Advance s
  writer_advances s k w h = holder_advances s k (s.place k) refl (h.held k w) h.all_reading

  place_advances :
      (s : Shared) (i : ℕ) (p : Place) → s.place i ≡ p → p ≢ returned → Locking s → Advance s
  place_advances s i calling e ne h = elim (Option-cases s.writer) [
    | inl free ↦ advance s i calling reading _ e (omega arith) refl (enters i e free)
    | inr (k, w) ↦ writer_advances s k w h
  ]
  place_advances s i reading e ne h =
      advance s i reading (has_read s.token) _ e (omega arith) refl (reads i e)
  place_advances s i (has_read t) e ne h = elim (Bool-cases (will_expire_in env within t s.now)) [
    | inl stale ↦ advance s i (has_read t) waiting _ e (omega arith) refl (finds_stale i t e stale)
    | inr fresh ↦ advance s i (has_read t) returned _ e (omega arith) refl (finds_fresh i t e fresh)
  ]
  place_advances s i waiting e ne h = elim (Option-cases s.writer) [
    | inl free ↦ advance s i waiting announced _ e (omega arith) refl (announces i e free)
    | inr (k, w) ↦ writer_advances s k w h
  ]
  place_advances s i announced e ne h = holder_advances s i announced e tt h.all_reading
  place_advances s i locked e ne h = holder_advances s i locked e tt h.all_reading
  place_advances s i refreshing e ne h = holder_advances s i refreshing e tt h.all_reading
  place_advances s i returned e ne h = absurd (ne refl)

  -- Let goroutines call `EnsureFreshWithContext` on one token, from a state in which no one holds
  -- the read lock and there is no writer, whatever tokens the refreshes give. In every state that
  -- they reach in which a call has not returned, some goroutine can take a step of its call that
  -- leaves it fewer steps, while the others stay where they are, where a refresh that is under way
  -- can end: readers, the writer that waits for them and those that wait for the writer never wait
  -- for each other in a ring.
  pub calls_go_on :
      (s t : Shared) (i : ℕ)
      → s.readers ≡ []
      → s.writer ≡ none
      → Reach env within horizon Gives s t
      → t.place i ≢ returned
      → Advance t
  calls_go_on s t i unread free r busy =
      place_advances t i (t.place i) refl busy
        (Reach-Locking r (record { held = λ j w. absurd (cc); all_reading = rw unread tt }))
