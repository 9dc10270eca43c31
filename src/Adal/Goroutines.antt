-- ===== src/Adal/Goroutines.antt =====
-- autorest/adal/token.go: `EnsureFreshWithContext` called by many goroutines on one token, as the
-- steps that they take between locking and unlocking.
use go_autorest.Prelude.{
  ℕ, ◌+◌, ◌≤◌, ◌≡◌, true, false, Option, none, some, List, [], ◌∷◌, ◌==◌, if◌then◌else◌,
}
use go_autorest.Adal.Types.{Token, Env, will_expire_in, expires, after}

-- Where a goroutine is: about to take the read lock; holding it; with a copy of the token, having
-- left it; about to take the write lock; the next writer, that waits for the readers to leave;
-- holding the write lock; in the refresh, holding it; returned.
pub data Place : Type 0 where
  calling : Place
  reading : Place
  has_read : Token → Place
  waiting : Place
  announced : Place
  locked : Place
  refreshing : Place
  returned : Place

-- `sync.RWMutex`, as the goroutines that hold the read lock, and the writer, which holds the write
-- lock or waits for these readers; while there is a writer, no one else gets a lock. The refreshes
-- that were begun and those that failed are counted.
pub record Shared : Type 0 where
  pub now : ℕ
  pub token : Token
  pub readers : List ℕ
  pub writer : Option ℕ
  pub place : ℕ → Place
  pub begun : ℕ
  pub failures : ℕ

abbrev pub at : (ℕ → Place) → ℕ → Place → ℕ → Place
at f i p j = if i == j then p else f j

-- the readers, when one leaves
abbrev pub without : ℕ → List ℕ → List ℕ
without i [] = []
without i (j ∷ js) = let rest = without i js in if i == j then rest else j ∷ rest

-- the token does not expire until the horizon, the time to refresh within left out
abbrev pub Lasts : {W : Type 0} → Env W → ℕ → ℕ → Token → Type 0
Lasts env within horizon t = after env (expires env t) (horizon + within) ≡ true

-- A token service, up to a time, and the tokens that it gives.
module _ {W : Type 0} (env : Env W) (within horizon : ℕ) (Gives : Token → Type 0) where
  pub data Step (s : Shared) : Shared → Type 0 where
    passes : (n : ℕ) → s.now + n ≤ horizon → Step s (record s { now = s.now + n })
    calls : (i : ℕ) → s.place i ≡ returned → Step s (record s { place = at s.place i calling })
    -- `spt.Token()`: the read lock, for which it waits while there is a writer
    enters :
        (i : ℕ)
        → s.place i ≡ calling
        → s.writer ≡ none
        → Step s (record s { place = at s.place i reading; readers = i ∷ s.readers })
    -- the copy of the token, and the end of the read lock
    reads :
        (i : ℕ)
        → s.place i ≡ reading
        → Step s
            (record s { place = at s.place i (has_read s.token); readers = without i s.readers })
    finds_fresh :
        (i : ℕ) (t : Token)
        → s.place i ≡ has_read t
        → will_expire_in env within t s.now ≡ false
        → Step s (record s { place = at s.place i returned })
    finds_stale :
        (i : ℕ) (t : Token)
        → s.place i ≡ has_read t
        → will_expire_in env within t s.now ≡ true
        → Step s (record s { place = at s.place i waiting })
    -- `Lock`: one writer at a time, which then waits for the readers that are left
    announces :
        (i : ℕ)
        → s.place i ≡ waiting
        → s.writer ≡ none
        → Step s (record s { place = at s.place i announced; writer = some i })
    locks :
        (i : ℕ)
        → s.place i ≡ announced
        → s.readers ≡ []
        → Step s (record s { place = at s.place i locked })
    -- the second test
    is_fresh :
        (i : ℕ)
        → s.place i ≡ locked
        → will_expire_in env within s.token s.now ≡ false
        → Step s (record s { place = at s.place i returned; writer = none })
    begins :
        (i : ℕ)
        → s.place i ≡ locked
        → will_expire_in env within s.token s.now ≡ true
        → Step s (record s { place = at s.place i refreshing; begun = s.begun + 1 })
    succeeds :
        (i : ℕ) (t : Token)
        → s.place i ≡ refreshing
        → Gives t
        → Step s (record s { place = at s.place i returned; writer = none; token = t })
    -- the refresh fails with the token that it got in place: a callback failed
    callback_fails :
        (i : ℕ) (t : Token)
        → s.place i ≡ refreshing
        → Gives t
        → Step s (record s {
          place = at s.place i returned;
          writer = none;
          token = t;
          failures = s.failures + 1;
        })
    -- the refresh fails, and the token stays
    fails :
        (i : ℕ)
        → s.place i ≡ refreshing
        → Step s
            (record s { place = at s.place i returned; writer = none; failures = s.failures + 1 })

  pub data Reach (s : Shared) : Shared → Type 0 where
    here : Reach s s
    next : {t u : Shared} → Reach s t → Step t u → Reach s u
