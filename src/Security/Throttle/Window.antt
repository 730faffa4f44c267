-- ===== src/Security/Throttle/Window.antt =====
-- The limiter against its specification: a count of the hits in the window of each key.
use austro_os.Common.{
  ℕ, ◌+◌, ◌-◌, ◌≤◌, ◌<◌, ◌≡◌, ◌≢◌, refl, sym, ◌∙◌, ◌↔◌, Bool, true, false, ◌&&◌, leb, if◌then◌else◌,
  some, List, [], ◌∷◌, All, arith, Bool-cases, inl, inr,
}
use mathlib.Core.Path.{subst}
use austro_os.Security.Throttle.{
  Bucket, Throttler, is_over, get_bucket, put_bucket, prune, current, allow,
}

-- one more hit, when there is room
hit : ℕ → Bucket → Bucket
hit limit b = if leb limit b.count then b else record b { count = b.count + 1 }

module _ {K : Type 0} (same : K → K → Bool) where
  -- the hits that count for a key at a time
  unfoldable pub hits : ℕ → K → Throttler K → ℕ
  hits now key t = (current same t.window now (get_bucket same key t.buckets)).count

  -- how many of the calls for a key are let through, in a run of calls for any keys
  unfoldable pub grants : K → List (ℕ × K) → Throttler K → ℕ
  grants k [] t = 0
  grants k ((now, key) ∷ calls) t =
      let r = allow same now key t in (if same key k && r.0 then 1 else 0) + grants k calls r.1

module _ {K : Type 0} (same : K → K → Bool)
    (same_iff : (a b : K) → (same a b ≡ true) ↔ (a ≡ b)) where
  get-put_self :
      (k : K) (b : Bucket) (m : List (K × Bucket))
      → get_bucket same k (put_bucket same k b m) ≡ some b
  unfolding get_bucket put_bucket
  get-put_self k b [] = ground (arith, same_iff k k)
  get-put_self k b ((j, c) ∷ m) = ground (arith, get-put_self k b m)

  get-put_ne :
      (k j : K) (b : Bucket) (m : List (K × Bucket))
      → j ≢ k
      → get_bucket same j (put_bucket same k b m) ≡ get_bucket same j m
  unfolding get_bucket put_bucket
  get-put_ne k j b [] h = ground (arith, same_iff k j)
  get-put_ne k j b ((i, c) ∷ m) h = ground (arith, get-put_ne k j b m, same_iff i k, same_iff i j)

  allow_iff_below_limit :
      (now : ℕ) (key : K) (t : Throttler K)
      → ((allow same now key t).0 ≡ true) ↔ (hits same now key t < t.limit)
  unfolding allow hits
  allow_iff_below_limit now key t = ground arith

  get-prune_kept :
      (window now : ℕ) (k : K) (b : Bucket) (m : List (K × Bucket))
      → is_over window now b ≡ false
      → get_bucket same k m ≡ some b
      → get_bucket same k (prune same window now m) ≡ some b
  unfolding get_bucket prune
  get-prune_kept window now k b [] h e = cc
  get-prune_kept window now k b ((j, c) ∷ m) h e = ground (arith, get-prune_kept window now k b m h)

  allow_own_key :
      (now : ℕ) (key : K) (t : Throttler K) (b : Bucket)
      → is_over t.window now b ≡ false
      → get_bucket same key t.buckets ≡ some b
      → get_bucket same key (allow same now key t).1.buckets ≡ some (hit t.limit b)
  unfolding allow hit current
  allow_own_key now key t b h e = ground (
    arith,
    e,
    get-put_self key b t.buckets,
    get-put_self key (record b { count = b.count + 1 }) t.buckets,
    get-prune_kept t.window now key (record b { count = b.count + 1 })
        (put_bucket same key (record b { count = b.count + 1 }) t.buckets) h,
  )

  allow_other_key :
      (now : ℕ) (key k : K) (t : Throttler K) (b : Bucket)
      → k ≢ key
      → is_over t.window now b ≡ false
      → get_bucket same k t.buckets ≡ some b
      → get_bucket same k (allow same now key t).1.buckets ≡ some b
  unfolding allow
  allow_other_key now key k t b n h e =
      let c = current same t.window now (get_bucket same key t.buckets) in
      let d : Bucket = record c { count = c.count + 1 } in
      ground (
        arith,
        e,
        get-put_ne key k c t.buckets n,
        get-put_ne key k d t.buckets n,
        get-prune_kept t.window now k b (put_bucket same key d t.buckets) h,
      )

  allow_keeps_settings :
      (now : ℕ) (key : K) (t : Throttler K)
      → ((allow same now key t).1.window ≡ t.window) × ((allow same now key t).1.limit ≡ t.limit)
  unfolding allow
  allow_keeps_settings now key t = ground arith

  -- the key's bucket after one call by any key, and whether that call counts for the key
  abbrev After : ℕ → K → K → Throttler K → Bucket → Bucket → Type 0
  After now key k t b c =
      (get_bucket same k (allow same now key t).1.buckets ≡ some c)
      × (c.opened ≡ b.opened)
      × ((if same key k && (allow same now key t).0 then 1 else 0) + b.count ≡ c.count)
      × (b.count ≤ t.limit → c.count ≤ t.limit)

  own_call :
      (now : ℕ) (key : K) (t : Throttler K) (b : Bucket)
      → is_over t.window now b ≡ false
      → get_bucket same key t.buckets ≡ some b
      → After now key key t b (hit t.limit b)
  unfolding allow current hit
  own_call now key t b h e = (
    allow_own_key now key t b h e,
    ground arith,
    ground (arith, (same_iff key key).1 refl),
    λ l. ground arith,
  )

  call_step :
      (now : ℕ) (key k : K) (t : Throttler K) (b : Bucket)
      → is_over t.window now b ≡ false
      → get_bucket same k t.buckets ≡ some b
      → (c : Bucket) × After now key k t b c
  call_step now key k t b h e = elim (Bool-cases (same key k)) [
    | inl own ↦
        let q = (same_iff key k).0 own in
        (
          hit t.limit b,
          subst (λ j. After now key j t b (hit t.limit b)) q
              (own_call now key t b h
                (subst (λ j. get_bucket same j t.buckets ≡ some b) (sym q) e)),
        )
    | inr other ↦ (
      b,
      (
        allow_other_key now key k t b (λ q. absurd (ground (arith, (same_iff key k).1 (sym q)))) h
            e,
        refl,
        ground arith,
        λ l. l,
      ),
    )
  ]

  grants_from :
      (k : K) (calls : List (ℕ × K)) (t : Throttler K) (b : Bucket) (opened window limit : ℕ)
      → get_bucket same k t.buckets ≡ some b
      → b.opened ≡ opened
      → t.window ≡ window
      → t.limit ≡ limit
      → All (λ call. call.0 - opened < window) calls
      → b.count ≤ limit
      → grants same k calls t + b.count ≤ limit
  unfolding grants
  grants_from k [] t b o n l e p q r w h = omega arith
  grants_from k ((now, key) ∷ calls) t b o n l e p q r (w, ws) h =
      let (c, (e', p', counted, room)) = call_step now key k t b (ground arith) e in
      let kept = allow_keeps_settings now key t in
      let rest =
        grants_from k calls (allow same now key t).1 c o n l e' (p' ∙ p) (kept.0 ∙ q) (kept.1 ∙ r)
          ws (ground arith) in
      omega (arith, counted, rest)

  -- A key whose bucket is open is let through no more often than its limit leaves room for, in any run of calls (also
  -- for other keys, and with prunings) made while the window of that bucket lasts.
  pub grants_within_limit :
      (k : K) (calls : List (ℕ × K)) (t : Throttler K) (b : Bucket)
      → get_bucket same k t.buckets ≡ some b
      → All (λ call. call.0 - b.opened < t.window) calls
      → b.count ≤ t.limit
      → grants same k calls t + b.count ≤ t.limit
  grants_within_limit k calls t b e w h =
      grants_from k calls t b b.opened t.window t.limit e refl refl refl w h
