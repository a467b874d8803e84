-- ===== src/Net/RateLimiter.antt =====
-- server/network/rateLimiter.hpp: which connections the listener takes. The arithmetic of `double` is an
-- argument. A time is the clock's count of nanoseconds, and no reading is before an earlier one. An
-- address is known by a number.
use qchat_server.Base.{
  ℕ, ◌≡◌, ◌∙◌, ◌<◌, ◌-◌, refl, Bool, true, false, not, leb, ◌==◌, if◌then◌else◌, none, some, [],
  ◌∷◌, arith, inl, inr, Bool-cases,
}
use qchat_server.Base.Dict.{Dict, id_key, lookup, insert, lookup-insert}

pub record Doubles : Type 1 where
  pub Double : Type 0
  pub zero : Double
  pub one : Double
  pub add : Double → Double → Double
  pub sub : Double → Double → Double
  pub mul : Double → Double → Double
  pub lt : Double → Double → Bool
  pub le : Double → Double → Bool
  pub from_count : ℕ → Double
  pub small_float : Double

module _ (d : Doubles) where
  -- `std::min`.
  abbrev min_of : d.Double → d.Double → d.Double
  min_of a b = if d.lt b a then b else a

  record TokenBucket : Type 0 where
    tokens : d.Double
    last_update : ℕ

  record RateLimiter : Type 0 where
    global_capacity : d.Double
    global_token : d.Double
    single_capacity : d.Double
    last_update : ℕ
    token_buckets : Dict ℕ TokenBucket

  unfoldable construct : d.Double → d.Double → RateLimiter
  construct global_capacity single_capacity = record {
    global_capacity = global_capacity;
    global_token = d.zero;
    single_capacity = single_capacity;
    last_update = 0;
    token_buckets = [];
  }

  -- `m_token_buckets[addr]`.
  abbrev bucket_of : ℕ → RateLimiter → TokenBucket
  bucket_of addr l = elim (lookup addr l.token_buckets) [
    | none ↦ record { tokens = d.zero; last_update = 0 }
    | some bucket ↦ bucket
  ]

  -- The tokens with those of the time that has passed, and the capacity at most.
  unfoldable refilled : d.Double → d.Double → ℕ → ℕ → d.Double
  refilled capacity tokens before now =
      min_of capacity
        (d.add tokens (d.mul (d.mul (d.from_count (now - before)) d.small_float) capacity))

  -- The bucket of the address, which loses a token also when there is none.
  unfoldable take_single : ℕ → ℕ → RateLimiter → Bool × RateLimiter
  take_single addr now l =
      let bucket = bucket_of addr l in
      let tokens = refilled l.single_capacity bucket.tokens bucket.last_update now in
      (
        d.lt d.zero tokens,
        record l {
          token_buckets =
              insert addr (record { tokens = d.sub tokens d.one; last_update = now })
                l.token_buckets;
        },
      )

  -- The tokens of all addresses.
  unfoldable take_global : ℕ → RateLimiter → Bool × RateLimiter
  take_global now l =
      let tokens = refilled l.global_capacity l.global_token l.last_update now in
      (not (d.le tokens d.zero), record l { global_token = d.sub tokens d.one; last_update = now })

  unfoldable allow_connection : ℕ → ℕ → RateLimiter → Bool × RateLimiter
  allow_connection addr now l =
      let (allow, l') = take_single addr now l in
      if not allow then (false, l') else take_global now l'

  unfoldable set_single_capacity : d.Double → RateLimiter → RateLimiter
  set_single_capacity single_capacity l = record l { single_capacity = single_capacity }

  unfoldable set_global_capacity : d.Double → RateLimiter → RateLimiter
  set_global_capacity global_capacity l = record l { global_capacity = global_capacity }

  -- `default_clean_time_min`.
  abbrev clean_time : ℕ
  clean_time = 60_000_000_000

  -- `std::erase_if` of a turn of `auto_clean`, at one reading of the clock.
  unfoldable clean_buckets : ℕ → Dict ℕ TokenBucket → Dict ℕ TokenBucket
  clean_buckets now [] = []
  clean_buckets now ((addr, bucket) ∷ rest) =
      let rest' = clean_buckets now rest in
      if leb clean_time (now - bucket.last_update) then rest' else (addr, bucket) ∷ rest'

  unfoldable auto_clean : ℕ → RateLimiter → RateLimiter
  auto_clean now l = record l { token_buckets = clean_buckets now l.token_buckets }

  take_single_others :
      (addr other now : ℕ) (l : RateLimiter)
      → (addr == other) ≡ false
      → lookup other (take_single addr now l).1.token_buckets ≡ lookup other l.token_buckets
  unfolding take_single
  take_single_others addr other now l different =
      lookup-insert other addr _ l.token_buckets ∙ rw different refl

  -- The buckets of the other addresses are as before, whatever comes of the connection.
  allow_connection_others :
      (addr other now : ℕ) (l : RateLimiter)
      → (addr == other) ≡ false
      → lookup other (allow_connection addr now l).1.token_buckets ≡ lookup other l.token_buckets
  unfolding allow_connection take_global
  allow_connection_others addr other now l different =
      elim (Bool-cases (take_single addr now l).0) [
        | inl taken ↦ rw taken (take_single_others addr other now l different)
        | inr refused ↦ rw refused (take_single_others addr other now l different)
      ]

  -- Who is turned away for the address costs the others nothing.
  turned_away_lem :
      (addr now : ℕ) (l : RateLimiter)
      → (take_single addr now l).0 ≡ false
      → let (allow, l') = allow_connection addr now l in
        (allow ≡ false) × (l'.global_token ≡ l.global_token) × (l'.last_update ≡ l.last_update)
  unfolding allow_connection take_single
  turned_away_lem addr now l refused = rw refused (refl, refl, refl)

  -- Where less is never more, there are never more tokens than the capacity.
  refilled_lem :
      (capacity tokens : d.Double) (before now : ℕ)
      → ((a b : d.Double) → d.lt a b ≡ true → d.lt b a ≡ false)
      → d.lt capacity (refilled capacity tokens before now) ≡ false
  unfolding refilled
  refilled_lem capacity tokens before now asymmetric =
      let more =
        d.add tokens (d.mul (d.mul (d.from_count (now - before)) d.small_float) capacity) in
      elim (Bool-cases (d.lt more capacity)) [
        | inl less ↦ rw less (asymmetric more capacity less)
        | inr other ↦ rw other (irreflexive capacity)
      ]
    where
      irreflexive : (a : d.Double) → d.lt a a ≡ false
      irreflexive a = elim (Bool-cases (d.lt a a)) [
        | inl less ↦ asymmetric a a less
        | inr other ↦ other
      ]

  -- What a cleaning leaves has been used within the last minute.
  clean_buckets_lem :
      (now addr : ℕ) (buckets : Dict ℕ TokenBucket) (bucket : TokenBucket)
      → lookup addr (clean_buckets now buckets) ≡ some bucket
      → now - bucket.last_update < clean_time
  unfolding clean_buckets lookup
  clean_buckets_lem now addr [] bucket found = absurd (ground (arith, found))
  clean_buckets_lem now addr ((key, other) ∷ rest) bucket found =
      elim (Bool-cases (leb clean_time (now - other.last_update))) [
        | inl idle ↦ clean_buckets_lem now addr rest bucket (rw (idle, clean_buckets) at found)
        | inr used ↦ elim (Bool-cases (key == addr)) [
          | inl same ↦ ground (arith, found)
          | inr different ↦ clean_buckets_lem now addr rest bucket (ground (arith, found))
        ]
      ]
