-- ===== src/Net/Arp/Cache.antt =====
-- What a lookup in the ARP cache of net/arp.c finds after an update, and after time has passed.
use coffee_os_aurora_refresh.Base.{
  ℕ, zero, suc, ◌+◌, ◌≤◌, ◌<◌, ◌≡◌, ◌≢◌, inl, inr, refl, ◌∙◌, Bool, true, false, not, ◌&&◌, none,
  some, List, Array, update, update_self, update_ne, ◌==◌, ==_self, Option-cases, Bool-cases, arith,
}
use coffee_os_aurora_refresh.Base.Search.{first, First, first-First, First-unique}
use coffee_os_aurora_refresh.Net.Arp.{
  ArpEntry, arp_cache_size, arp_ttl_ticks, arp_match, arp_cache_update, arp_lookup, age, arp_tick,
}

arp_lookup-First :
    (cache : Array ArpEntry) (ip i : ℕ)
    → First (arp_match cache ip) 0 arp_cache_size (some i)
    → arp_lookup cache ip ≡ some (cache i).mac
unfolding arp_lookup
arp_lookup-First cache ip i f =
    rw
      (
        First-unique (arp_match cache ip) 0 arp_cache_size _ (some i)
            (first-First (arp_match cache ip) arp_cache_size 0 arp_cache_size refl) f,
        arp_lookup,
      )
      refl

-- An entry for the address put at place i, before which no entry is for it.
put-First :
    (cache : Array ArpEntry) (ip i : ℕ) (e : ArpEntry)
    → i < arp_cache_size
    → (e.valid && e.ip == ip) ≡ true
    → ((j : ℕ) → j < i → arp_match cache ip j ≡ false)
    → arp_lookup (update cache i e) ip ≡ some e.mac
put-First cache ip i e h v before =
    arp_lookup-First (update cache i e) ip i (
      omega arith,
      h,
      rw (update_self cache i e) v,
      λ j l u. rw (update_ne cache i j e (omega arith)) (before j u),
    )
    ∙ rw (update_self cache i e) refl

-- After an update, a lookup of the address finds what was put in.
pub lookup-update :
    (cache : Array ArpEntry) (ip : ℕ) (mac : List ℕ)
    → arp_lookup (arp_cache_update cache ip mac) ip ≡ some mac
unfolding arp_cache_update
lookup-update cache ip mac = elim (Option-cases (first (arp_match cache ip) arp_cache_size 0)) [
  | inl e ↦
      rw (e, arp_cache_update)
        (put-First cache ip _ (record { ip = ip; mac = mac; ttl = arp_ttl_ticks; valid = true })
          slot_bound (==_self ip)
          (λ j l. (rw e at found) j (omega arith) (omega (arith, slot_bound))))
  | inr (i, e) ↦
      let f : First (arp_match cache ip) 0 arp_cache_size (some i) = rw e at found in
      rw (e, arp_cache_update)
        (put-First cache ip i (record (cache i) { mac = mac; ttl = arp_ttl_ticks }) f.1 f.2
          (λ j l. f.3 j (omega arith) l))
]
  where
    found :
        First (arp_match cache ip) 0 arp_cache_size (first (arp_match cache ip) arp_cache_size 0)
    found = first-First (arp_match cache ip) arp_cache_size 0 arp_cache_size refl

    slot_bound :
        elim (first (λ i. not (cache i).valid) arp_cache_size 0) as (λ o. ℕ) [
          | some f ↦ f
          | none ↦ 0
        ]
        < arp_cache_size
    slot_bound = elim (Option-cases (first (λ i. not (cache i).valid) arp_cache_size 0)) [
      | inl e ↦ rw e (omega arith)
      | inr (i, e) ↦
          let f : First (λ i. not (cache i).valid) 0 arp_cache_size (some i) =
            rw e at (first-First (λ i. not (cache i).valid) arp_cache_size 0 arp_cache_size refl) in
          rw e f.1
    ]

-- The cache after n calls of arp_tick without a packet in between.
unfoldable pub ticks : ℕ → Array ArpEntry → Array ArpEntry
ticks zero cache = cache
ticks (suc n) cache = arp_tick (ticks n cache)

-- An entry that outlives a tick had a tick more to live.
age_lem :
    (e : ArpEntry)
    → (age e).valid ≡ true
    → (e.valid ≡ true) × ((age e).ttl + 1 ≡ e.ttl) × (0 < (age e).ttl)
unfolding age
age_lem e h = elim (Bool-cases e.valid) [
  | inl v ↦ (v, ground arith, ground arith)
  | inr v ↦ absurd (ground arith)
]

ticks_ttl :
    (n : ℕ) (cache : Array ArpEntry) (i : ℕ)
    → (ticks n cache i).valid ≡ true
    → (ticks n cache i).ttl + n ≡ (cache i).ttl
unfolding ticks arp_tick
ticks_ttl zero cache i h = omega arith
ticks_ttl (suc n) cache i h =
    let older = age_lem (ticks n cache i) h in omega (arith, ticks_ttl n cache i older.0, older.1)

expired :
    (n : ℕ) (cache : Array ArpEntry) (i : ℕ)
    → (cache i).ttl ≤ suc n
    → (ticks (suc n) cache i).valid ≢ true
unfolding ticks arp_tick
expired n cache i h v =
    omega (arith, ticks_ttl (suc n) cache i v, (age_lem (ticks n cache i) v).2, h)

-- When no entry has more than n ticks to live, n > 0 ticks without a packet empty the cache.
pub lookup-ticks :
    (n : ℕ) (cache : Array ArpEntry) (ip : ℕ)
    → 0 < n
    → ((i : ℕ) → (cache i).ttl ≤ n)
    → arp_lookup (ticks n cache) ip ≡ none
unfolding arp_lookup
lookup-ticks zero cache ip h k = absurd (omega arith)
lookup-ticks (suc n) cache ip h k =
    elim (Option-cases (first (arp_match (ticks (suc n) cache) ip) arp_cache_size 0)) [
      | inl e ↦ rw (e, arp_lookup) refl
      | inr (i, e) ↦
          let f : First (arp_match (ticks (suc n) cache) ip) 0 arp_cache_size (some i) = rw e at (
            first-First (arp_match (ticks (suc n) cache) ip) arp_cache_size 0 arp_cache_size
              refl) in
          absurd (expired n cache i (k i) (and_left _ _ (f.2)))
    ]
  where
    and_left : (a b : Bool) → (a && b) ≡ true → a ≡ true
    and_left a b h = ground arith
