-- ===== src/Adal/OneRefresh.antt =====
-- autorest/adal/token.go: the write lock and the second test let one goroutine refresh a token.
use go_autorest.Prelude.{
  ℕ, ℤ, pos, negsuc, not, ◌+◌, ◌≤◌, ◌≡◌, ◌≢◌, refl, ap, true, false, Option, none, some, List, ◌∷◌,
  ◌==◌, if-intro, arith,
}
use go_autorest.Adal.Types.{Env, will_expire_in, expires, after}
use go_autorest.Adal.Goroutines.{
  Place, calling, reading, has_read, waiting, announced, locked, refreshing, returned, Shared, at,
  without, Lasts, Step, passes, calls, enters, reads, finds_fresh, finds_stale, announces, locks,
  is_fresh, begins, succeeds, callback_fails, fails, Reach, here, next,
}

-- the places of a writer, that holds the write lock or waits for the readers to leave
abbrev pub Holds : Place → Type 0
Holds announced = Unit {0}
Holds locked = Unit {0}
Holds refreshing = Unit {0}
Holds calling = ⊥
Holds reading = ⊥
Holds (has_read t) = ⊥
Holds waiting = ⊥
Holds returned = ⊥

abbrev pub Exclusive : Shared → Type 0
Exclusive s = (i : ℕ) → Holds (s.place i) → s.writer ≡ some i

pub at-elim :
    (P : Place → Type 0) (f : ℕ → Place) (i : ℕ) (p : Place) (j : ℕ)
    → (i ≡ j → P p)
    → (i ≢ j → P (f j))
    → P (at f i p j)
at-elim P f i p j same other =
    if-intro P (i == j) (λ e. same (ground arith)) (λ e. other (λ q. ground arith))

-- the writer stays, and the goroutine that moves does not come to hold the lock
Exclusive-idle :
    (s : Shared) (i : ℕ) (p : Place)
    → Exclusive s
    → (Holds p → ⊥)
    → (j : ℕ) → Holds (at s.place i p j)
    → s.writer ≡ some j
Exclusive-idle s i p h idle j =
    at-elim (λ q. Holds q → s.writer ≡ some j) s.place i p j (λ _ q. absurd (idle q)) (λ _. h j)

Exclusive-release :
    (s : Shared) (i : ℕ) (j : ℕ)
    → Exclusive s
    → Holds (s.place i)
    → Holds (at s.place i returned j)
    → ◌≡◌ {A = Option ℕ} none (some j)
Exclusive-release s i j h held =
    at-elim (λ q. Holds q → ◌≡◌ {A = Option ℕ} none (some j)) s.place i returned j
      (λ _ q. elim q [ ]) (λ ne q. absurd (ne (both (h i held) (h j q))))
  where
    both : s.writer ≡ some i → s.writer ≡ some j → i ≡ j
    both a b = cc

Exclusive-one : (s : Shared) (i j : ℕ) → Exclusive s → Holds (s.place i) → Holds (s.place j) → i ≡ j
Exclusive-one s i j h a b = both (h i a) (h j b)
  where
    both : s.writer ≡ some i → s.writer ≡ some j → i ≡ j
    both x y = cc

module _ {W : Type 0} (env : Env W) (within horizon : ℕ) where
  Step-Exclusive :
      {s t : Shared}
      → Step env within horizon (Lasts env within horizon) s t
      → Exclusive s
      → Exclusive t
  Step-Exclusive {s} (passes n l) h = h
  Step-Exclusive {s} (calls i at_i) h = Exclusive-idle s i calling h (λ q. q)
  Step-Exclusive {s} (enters i at_i free) h = Exclusive-idle s i reading h (λ q. q)
  Step-Exclusive {s} (reads i at_i) h = Exclusive-idle s i (has_read s.token) h (λ q. q)
  Step-Exclusive {s} (finds_fresh i t at_i fresh) h = Exclusive-idle s i returned h (λ q. q)
  Step-Exclusive {s} (finds_stale i t at_i stale) h = Exclusive-idle s i waiting h (λ q. q)
  Step-Exclusive {s} (locks i at_i empty) h = λ j.
      at-elim (λ q. Holds q → s.writer ≡ some j) s.place i locked j
        (λ e _. rw (← e) (h i (rw at_i tt))) (λ _. h j)
  Step-Exclusive {s} (announces i at_i free) h = λ j.
      at-elim (λ q. Holds q → some i ≡ some j) s.place i announced j (λ e _. ap some e)
        (λ _ q. absurd (taken j free (h j q)))
    where
      taken : (j : ℕ) → s.writer ≡ none → s.writer ≡ some j → ⊥
      taken j a b = cc
  Step-Exclusive {s} (is_fresh i at_i fresh) h = λ j. Exclusive-release s i j h (rw at_i tt)
  Step-Exclusive {s} (begins i at_i stale) h = λ j.
      at-elim (λ q. Holds q → s.writer ≡ some j) s.place i refreshing j
        (λ e _. rw (← e) (h i (rw at_i tt))) (λ _. h j)
  Step-Exclusive {s} (succeeds i t at_i lasts) h = λ j. Exclusive-release s i j h (rw at_i tt)
  Step-Exclusive {s} (callback_fails i t at_i lasts) h = λ j. Exclusive-release s i j h (rw at_i tt)
  Step-Exclusive {s} (fails i at_i) h = λ j. Exclusive-release s i j h (rw at_i tt)

  -- How many refreshes were begun: no more than failed, with none under way; one more, with one
  -- under way; or one more, which gave a token that lasts.
  data Counted (s : Shared) : Type 0 where
    none_open : s.begun ≤ s.failures → ((j : ℕ) → s.place j ≢ refreshing) → Counted s
    open_by : (i : ℕ) → s.begun ≤ s.failures + 1 → s.place i ≡ refreshing → Counted s
    served : s.begun ≤ s.failures + 1 → Lasts env within horizon s.token → Counted s

  Counted-le : (s : Shared) → Counted s → s.begun ≤ s.failures + 1
  Counted-le s (none_open a b) = omega arith
  Counted-le s (open_by i a b) = a
  Counted-le s (served a b) = a

  -- a step that changes neither the counts nor the token, between places outside a refresh
  Counted-idle :
      (s : Shared) (i : ℕ) (p q : Place) (rs : List ℕ) (w : Option ℕ)
      → s.place i ≡ p
      → p ≢ refreshing
      → q ≢ refreshing
      → Counted s
      → Counted (record s { place = at s.place i q; readers = rs; writer = w })
  Counted-idle s i p q rs w e np nq (none_open a b) =
      none_open a (λ j. at-elim (λ x. x ≢ refreshing) s.place i q j (λ _. nq) (λ _. b j))
  Counted-idle s i p q rs w e np nq (open_by k a b) =
      open_by k a (
        at-elim (λ x. x ≡ refreshing) s.place i q k (λ same. absurd (np (moved k b same))) (λ _. b))
    where
      moved : (k : ℕ) → s.place k ≡ refreshing → i ≡ k → p ≡ refreshing
      moved k b same = cc
  Counted-idle s i p q rs w e np nq (served a b) = served a b

  after_later : (x : ℤ) (m n : ℕ) → m ≤ n → after env x n ≡ true → after env x m ≡ true
  after_later (pos x) m n l h = ground arith
  after_later (negsuc x) m n l h = absurd (cc)

  Lasts-fresh :
      (s : Shared)
      → Lasts env within horizon s.token
      → s.now ≤ horizon
      → will_expire_in env within s.token s.now ≡ false
  unfolding will_expire_in
  Lasts-fresh s l n =
      ap not (after_later (expires env s.token) (s.now + within) (horizon + within) (omega arith) l)

  -- a refresh begins: none is under way, and the token does not last
  Counted-begins :
      (s : Shared) (i : ℕ)
      → s.place i ≡ locked
      → will_expire_in env within s.token s.now ≡ true
      → s.now ≤ horizon
      → Exclusive s
      → Counted s
      → Counted (record s { place = at s.place i refreshing; begun = s.begun + 1 })
  Counted-begins s i at_i stale n h (none_open a b) =
      open_by i (omega arith)
        (at-elim (λ x. x ≡ refreshing) s.place i refreshing i (λ _. refl) (λ ne. absurd (ne refl)))
  Counted-begins s i at_i stale n h (open_by k a b) =
      let same : i ≡ k = Exclusive-one s i k h (rw at_i tt) (rw b tt) in
      let clash : locked ≡ refreshing = cc in absurd (cc)
  Counted-begins s i at_i stale n h (served a l) =
      let fresh : will_expire_in env within s.token s.now ≡ false = Lasts-fresh s l n in absurd (cc)

  Counted-fails :
      (s : Shared) (i : ℕ)
      → s.place i ≡ refreshing
      → Exclusive s
      → Counted s
      → Counted
          (record s { place = at s.place i returned; writer = none; failures = s.failures + 1 })
  Counted-fails s i at_i h c = none_open (Counted-le s c) (λ j.
      at-elim (λ x. x ≢ refreshing) s.place i returned j (λ _ e. absurd (cc))
        (λ ne e. ne (Exclusive-one s i j h (rw at_i tt) (rw e tt))))

  record Sound (s : Shared) : Type 0 where
    exclusive : Exclusive s
    in_time : s.now ≤ horizon
    counted : Counted s

  Step-Counted :
      {s t : Shared} → Step env within horizon (Lasts env within horizon) s t → Sound s → Counted t
  Step-Counted {s} (passes n l) h = elim h.counted [
    | none_open a b ↦ none_open a b
    | open_by k a b ↦ open_by k a b
    | served a b ↦ served a b
  ]
  Step-Counted {s} (calls i at_i) h =
      Counted-idle s i returned calling s.readers s.writer at_i (λ e. cc) (λ e. cc) h.counted
  Step-Counted {s} (enters i at_i free) h =
      Counted-idle s i calling reading (i ∷ s.readers) s.writer at_i (λ e. cc) (λ e. cc) h.counted
  Step-Counted {s} (reads i at_i) h =
      Counted-idle s i reading (has_read s.token) (without i s.readers) s.writer at_i (λ e. cc)
        (λ e. cc) h.counted
  Step-Counted {s} (finds_fresh i t at_i fresh) h =
      Counted-idle s i (has_read t) returned s.readers s.writer at_i (λ e. cc) (λ e. cc) h.counted
  Step-Counted {s} (finds_stale i t at_i stale) h =
      Counted-idle s i (has_read t) waiting s.readers s.writer at_i (λ e. cc) (λ e. cc) h.counted
  Step-Counted {s} (announces i at_i free) h =
      Counted-idle s i waiting announced s.readers (some i) at_i (λ e. cc) (λ e. cc) h.counted
  Step-Counted {s} (locks i at_i empty) h =
      Counted-idle s i announced locked s.readers s.writer at_i (λ e. cc) (λ e. cc) h.counted
  Step-Counted {s} (is_fresh i at_i fresh) h =
      Counted-idle s i locked returned s.readers none at_i (λ e. cc) (λ e. cc) h.counted
  Step-Counted {s} (begins i at_i stale) h =
      Counted-begins s i at_i stale h.in_time h.exclusive h.counted
  Step-Counted {s} (succeeds i t at_i lasts) h = served (Counted-le s h.counted) lasts
  Step-Counted {s} (callback_fails i t at_i lasts) h =
      let l : s.begun ≤ s.failures + 1 = Counted-le s h.counted in served (omega arith) lasts
  Step-Counted {s} (fails i at_i) h = Counted-fails s i at_i h.exclusive h.counted

  Step-in_time :
      {s t : Shared}
      → Step env within horizon (Lasts env within horizon) s t
      → s.now ≤ horizon
      → t.now ≤ horizon
  Step-in_time {s} (passes n l) h = l
  Step-in_time {s} (calls i at_i) h = h
  Step-in_time {s} (enters i at_i free) h = h
  Step-in_time {s} (reads i at_i) h = h
  Step-in_time {s} (finds_fresh i t at_i fresh) h = h
  Step-in_time {s} (finds_stale i t at_i stale) h = h
  Step-in_time {s} (announces i at_i free) h = h
  Step-in_time {s} (locks i at_i empty) h = h
  Step-in_time {s} (is_fresh i at_i fresh) h = h
  Step-in_time {s} (begins i at_i stale) h = h
  Step-in_time {s} (succeeds i t at_i lasts) h = h
  Step-in_time {s} (callback_fails i t at_i lasts) h = h
  Step-in_time {s} (fails i at_i) h = h

  Step-Sound :
      {s t : Shared} → Step env within horizon (Lasts env within horizon) s t → Sound s → Sound t
  Step-Sound p h = record {
    exclusive = Step-Exclusive p h.exclusive;
    in_time = Step-in_time p h.in_time;
    counted = Step-Counted p h;
  }

  Reach-Sound :
      {s t : Shared} → Reach env within horizon (Lasts env within horizon) s t → Sound s → Sound t
  Reach-Sound here h = h
  Reach-Sound (next r p) h = Step-Sound p (Reach-Sound r h)

  -- Let goroutines call `EnsureFreshWithContext` on one token, from a state in which none holds
  -- the write lock or is the next to get it and none has begun a refresh, and let each refresh that
  -- gets a token get one that lasts until a horizon, with the time to refresh within left out. In
  -- every state that they reach by the horizon, two that hold the write lock, or are the next to
  -- get it, are one, and the refreshes that were begun are at most one more than those that failed.
  pub refreshed_once :
      (s t : Shared)
      → ((i : ℕ) → ¬ Holds (s.place i))
      → s.begun ≡ 0
      → s.now ≤ horizon
      → Reach env within horizon (Lasts env within horizon) s t
      → ((i j : ℕ) → Holds (t.place i) → Holds (t.place j) → i ≡ j) × (t.begun ≤ t.failures + 1)
  refreshed_once s t idle unbegun early r =
      let sound : Sound s = record {
        exclusive = λ i q. absurd (idle i q);
        in_time = early;
        counted = none_open (omega arith) (λ j e. idle j (rw e tt));
      } in
      let h : Sound t = Reach-Sound r sound in
      (λ i j. Exclusive-one t i j h.exclusive, Counted-le t h.counted)
