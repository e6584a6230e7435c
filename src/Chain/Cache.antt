-- ===== src/Chain/Cache.antt =====
-- The caches of `AnchorClient.current` and of the log server's `_entries`, which are one loop: a value
-- is kept with the time at which it was stored. Times are in microseconds of the monotonic clock.
use blind_age.Base.{
  ℕ, ◌+◌, ◌<◌, true, false, Option, none, some, ◌≡◌, ◌⊎◌, inl, inr, refl, ap, ◌∙◌, arith, ltb,
  Bool-cases, String,
}
use blind_age.Base.Text.{Bytes}

-- What `_fetch` reads of the contract.
pub record AnchorHead : Type 0 where
  pub registry_hash : Bytes
  pub generated_at : String
  pub version : ℕ
  pub updated_at : ℕ

pub record Cache (A : Type 0) : Type 0 where
  pub cached : Option (A × ℕ)
  pub ttl : ℕ

before : (a b : ℕ) → ltb a b ≡ true → a < b
before a b h = ground arith

module _ {A : Type 0} where
  -- A fetch that fails raises, and the cache stays as it was.
  unfoldable pub store_fetched : Cache A → Option A → ℕ → Cache A × Option A
  store_fetched cache none fetched_at = (cache, none)
  store_fetched cache (some a) fetched_at = (record cache { cached = some (a, fetched_at) }, some a)

  -- The test on what is cached.
  unfoldable pub answer :
      Cache A → Option (A × ℕ) → (fetch : Option A) (now fetched_at : ℕ) → Cache A × Option A
  unfolding store_fetched
  answer cache none fetch now fetched_at = store_fetched cache fetch fetched_at
  answer cache (some (a, at_)) fetch now fetched_at = elim (ltb now (at_ + cache.ttl)) [
    | true ↦ (cache, some a)
    | false ↦ store_fetched cache fetch fetched_at
  ]

  -- `now` is the clock before the fetch, `fetched_at` the clock after it; none is an exception.
  unfoldable pub current : Cache A → (fetch : Option A) (now fetched_at : ℕ) → Cache A × Option A
  unfolding answer
  current cache fetch now fetched_at = answer cache cache.cached fetch now fetched_at

  -- What a call may answer with: the value cached less than `ttl` ago, or a fetch of this call.
  abbrev pub Fresh : Cache A → Option A → ℕ → A → Type 0
  Fresh cache fetch now a =
      ((at_ : ℕ) × (cache.cached ≡ some (a, at_)) × (now < at_ + cache.ttl)) ⊎ (fetch ≡ some a)

  some_injective : {a b : A} → some a ≡ some b → a ≡ b
  some_injective h = cc

  stored-Fresh :
      (cache : Cache A) (fetch : Option A) (now fetched_at : ℕ) (a : A)
      → (store_fetched cache fetch fetched_at).1 ≡ some a
      → Fresh cache fetch now a
  unfolding store_fetched
  stored-Fresh cache none now fetched_at a h = inr h
  stored-Fresh cache (some b) now fetched_at a h = inr h

  answer-Fresh :
      (cache : Cache A) (held : Option (A × ℕ)) (fetch : Option A) (now fetched_at : ℕ) (a : A)
      → cache.cached ≡ held
      → (answer cache held fetch now fetched_at).1 ≡ some a
      → Fresh cache fetch now a
  unfolding answer
  answer-Fresh cache none fetch now fetched_at a e h = stored-Fresh cache fetch now fetched_at a h
  answer-Fresh cache (some (b, at_)) fetch now fetched_at a e h =
      elim (Bool-cases (ltb now (at_ + cache.ttl))) [
        | inl young ↦ inl (
          at_,
          e ∙ ap (λ x. some (x, at_)) (some_injective (rw (answer, young) at h)),
          before now (at_ + cache.ttl) young,
        )
        | inr old ↦ stored-Fresh cache fetch now fetched_at a (rw (answer, old) at h)
      ]

  -- `current` never answers with a value that is neither cached for less than `ttl` nor fetched by
  -- the call itself.
  pub current-Fresh :
      (cache : Cache A) (fetch : Option A) (now fetched_at : ℕ) (a : A)
      → (current cache fetch now fetched_at).1 ≡ some a
      → Fresh cache fetch now a
  unfolding current
  current-Fresh cache fetch now fetched_at a h =
      answer-Fresh cache cache.cached fetch now fetched_at a refl h
