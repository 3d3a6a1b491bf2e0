-- ===== src/Taps/Fenced.antt =====
-- The epoch of a device is a fence: it never goes back while the device stays in the pool, and under
-- one epoch the device has one owner at most.
use kuma_box.Prelude.{
  ℕ, ◌+◌, ◌≤◌, ◌≡◌, ◌⊎◌, refl, sym, ap, subst, ◌∙◌, inl, inr, not, ◌&&◌, ltb, ◌*◌, length, none,
  some, [], ◌==◌, arith, if◌then◌else◌, Text, text_eq, text_eq_iff, Dict, lookup, insert, without,
  lookup-insert, lookup-without, Option-cases, Bool-cases,
}
use kuma_box.Errdefs.{Result, ok}
use kuma_box.Taps.{
  TapShape, pool_ready, pool_reserved, pool_cleaning, PooledTap, TapPool, PoolOptions, TapLease,
  set_tap, set_free, idle_count, take_free, take_last, free_list, lend, new_tap, unused_tap,
  leased_tap, found_tap, adopt, discover, keep_ready, claim_tap, claim_entries, awaits_cleaning,
  max_uint64,
}
use kuma_box.Taps.Claims.{claim_option, lookup-claim_entries}

pub record IsFenced (e e' : PooledTap) : Type 0 where
  pub shape : e'.shape ≡ e.shape
  pub epoch : e.epoch ≤ e'.epoch
  pub owner : e'.epoch ≡ e.epoch → (e'.owner ≡ e.owner) ⊎ (e'.owner ≡ [])

pub IsFenced-refl : (e : PooledTap) → IsFenced e e
IsFenced-refl e = record { shape = refl; epoch = omega arith; owner = λ h. inl refl }

pub IsFenced-trans : (a b c : PooledTap) → IsFenced a b → IsFenced b c → IsFenced a c
IsFenced-trans a b c f g = record {
  shape = g.shape ∙ f.shape;
  epoch = omega (arith, f.epoch, g.epoch);
  owner = λ h.
      let second : c.epoch ≡ b.epoch = omega (arith, h, f.epoch, g.epoch) in
      let first : b.epoch ≡ a.epoch = omega (arith, h, f.epoch, g.epoch) in
      elim (g.owner second) [
        | inr free ↦ inr free
        | inl same ↦ elim (f.owner first) [
          | inl kept ↦ inl (same ∙ kept)
          | inr free ↦ inr (same ∙ free)
        ]
      ];
}

module _ (name : Text) where
  -- What a change of the entries does to one of them.
  abbrev pub Fences : Dict PooledTap → Dict PooledTap → Type 0
  Fences d d' =
      (e e' : PooledTap) → lookup name d ≡ some e → lookup name d' ≡ some e' → IsFenced e e'

  some_same : (e e' : PooledTap) → some e ≡ some e' → e ≡ e'
  some_same e e' h = ground arith

  pub Fences-same : (d d' : Dict PooledTap) → lookup name d' ≡ lookup name d → Fences d d'
  Fences-same d d' same e e' h h' =
      subst (IsFenced e) (some_same e e' (sym h ∙ sym same ∙ h')) (IsFenced-refl e)

  Fences-insert :
      (other : Text) (x : PooledTap) (d : Dict PooledTap)
      → ((e : PooledTap) → lookup other d ≡ some e → IsFenced e x)
      → Fences d (insert other x d)
  Fences-insert other x d f e e' h h' = elim (Bool-cases (text_eq other name)) [
    | inr apart ↦
        Fences-same d (insert other x d)
          (lookup-insert other name x d ∙ ap (λ b. if b then some x else lookup name d) apart) e e'
          h h'
    | inl same ↦
        let eq : other ≡ name = (text_eq_iff other name).0 same in
        let there : lookup other d ≡ some e = rw eq h in
        let new : some x ≡ some e' = rw (lookup-insert other name x d, same) at h' in
        subst (IsFenced e) (some_same x e' new) (f e there)
  ]

  Fences-absent :
      (other : Text) (x : PooledTap) (d : Dict PooledTap)
      → lookup other d ≡ none
      → Fences d (insert other x d)
  Fences-absent other x d absent =
      Fences-insert other x d
        (λ e h. let bad : none ≡ some e = sym absent ∙ h in absurd (ground arith))

  -- An entry that was read is written.
  pub Fences-written :
      (other : Text) (t x : PooledTap) (d : Dict PooledTap)
      → lookup other d ≡ some t
      → IsFenced t x
      → Fences d (insert other x d)
  Fences-written other t x d read f =
      Fences-insert other x d (λ e h. subst (λ q. IsFenced q x) (some_same t e (sym read ∙ h)) f)

  pub Fences-without : (other : Text) (d : Dict PooledTap) → Fences d (without other d)
  Fences-without other d e e' h h' = elim (Bool-cases (text_eq other name)) [
    | inr apart ↦
        Fences-same d (without other d)
          (lookup-without other name d ∙ ap (λ b. if b then none else lookup name d) apart) e e' h
          h'
    | inl same ↦
        let gone : none ≡ some e' = rw (lookup-without other name d, same) at h' in
        absurd (ground arith)
  ]

  claimed-IsFenced : (e : PooledTap) → IsFenced e (claim_tap e)
  claimed-IsFenced e = elim (Bool-cases (awaits_cleaning e)) [
    | inl waits ↦ rw waits (record { shape = refl; epoch = omega arith; owner = λ h. inl refl })
    | inr stays ↦ rw stays (IsFenced-refl e)
  ]

  pub Fences-claim : (d : Dict PooledTap) → Fences d (claim_entries d)
  Fences-claim d e e' h h' =
      let new : some (claim_tap e) ≡ some e' =
        ap claim_option (sym h) ∙ sym (lookup-claim_entries d name) ∙ h' in
      subst (IsFenced e) (some_same (claim_tap e) e' new) (claimed-IsFenced e)

  pub Fences-take_free :
      (s p : TapPool) (shape : TapShape) (other : Text)
      → take_free shape s ≡ ok (some other, p)
      → Fences s.entries p.entries
  unfolding take_free
  Fences-take_free s p shape other h = elim (Bool-cases s.closed) [
    | inl shut ↦ absurd (ground arith)
    | inr going ↦ elim (Option-cases (take_last (free_list shape s.free))) [
      | inl none_left ↦ absurd (ground arith)
      | inr ((first, left), e) ↦
          let same : record s { free = set_free shape left s.free } ≡ p = ground arith in
          Fences-same s.entries p.entries (ap (λ q. lookup name q.entries) (sym same))
    ]
  ]

  pub Fences-new_tap :
      (s p : TapPool) (other : Text) (shape : TapShape)
      → new_tap other shape s ≡ ok p
      → Fences s.entries p.entries
  unfolding new_tap
  Fences-new_tap s p other shape h = elim (Bool-cases s.closed) [
    | inl shut ↦ absurd (ground arith)
    | inr going ↦ elim (Option-cases (lookup other s.entries)) [
      | inr (e, there) ↦ absurd (ground arith)
      | inl absent ↦
          let same : set_tap other (unused_tap shape) s ≡ p = ground arith in
          subst (λ q. Fences s.entries q.entries) same
            (Fences-absent other (unused_tap shape) s.entries absent)
    ]
  ]

  pub Fences-lend :
      (options : PoolOptions) (s p : TapPool) (shape : TapShape) (other id : Text) (t : PooledTap)
      (r : Result ℕ)
      → lookup other s.entries ≡ some t
      → lend options shape other t id s ≡ (r, p)
      → Fences s.entries p.entries
  unfolding lend
  Fences-lend options s p shape other id t r read h = elim (Bool-cases (t.epoch == max_uint64)) [
    | inl spent ↦ subst (Fences s.entries) (ap (λ q. q.1.entries) (rw spent at h)) (
        Fences-written other t (record t { phase = pool_cleaning }) s.entries read
          (record { shape = refl; epoch = omega arith; owner = λ e. inl refl }))
    | inr more ↦ subst (Fences s.entries) (ap (λ q. q.1.entries) (rw more at h)) (
        Fences-written other t (record t { epoch = t.epoch + 1; owner = id; phase = pool_reserved })
          s.entries read
          (record { shape = refl; epoch = omega arith; owner = λ e. absurd (omega (arith, e)) }))
  ]

  pub Fences-keep_ready :
      (options : PoolOptions) (s p : TapPool) (other : Text) (t : PooledTap)
      → lookup other s.entries ≡ some t
      → keep_ready options other t s ≡ some p
      → Fences s.entries p.entries
  unfolding keep_ready
  Fences-keep_ready options s p other t read h =
      elim (Bool-cases (
        not s.closed
        && ltb (idle_count s.free) (options.pool_size * length options.pool_queues)
        && ltb t.epoch max_uint64)) [
          | inr full ↦ absurd (ground arith)
          | inl room ↦
              let entries : insert other
                    (record t { phase = pool_ready; owner = []; last_error = none }) s.entries
                  ≡ p.entries =
                ground arith in
              subst (Fences s.entries) entries (
                Fences-written other t
                  (record t { phase = pool_ready; owner = []; last_error = none }) s.entries read
                  (record { shape = refl; epoch = omega arith; owner = λ e. inr refl }))
        ]

  pub Fences-adopt :
      (s p : TapPool) (item : TapLease) → adopt item s ≡ ok p → Fences s.entries p.entries
  unfolding adopt
  Fences-adopt s p item h = elim (Option-cases (lookup item.tap s.entries)) [
    | inr (e, there) ↦
        let same : s ≡ p = ground arith in
        Fences-same s.entries p.entries (ap (λ q. lookup name q.entries) (sym same))
    | inl absent ↦ elim (Bool-cases (item.epoch == 0)) [
      | inl given_none ↦
          let same : s ≡ p = ground arith in
          Fences-same s.entries p.entries (ap (λ q. lookup name q.entries) (sym same))
      | inr given ↦
          let same : set_tap item.tap (leased_tap item) s ≡ p = ground arith in
          subst (λ q. Fences s.entries q.entries) same
            (Fences-absent item.tap (leased_tap item) s.entries absent)
    ]
  ]

  pub Fences-discover :
      (s : TapPool) (other : Text) (shape : TapShape) (epoch : ℕ)
      → Fences s.entries (discover other shape epoch s).entries
  unfolding discover
  Fences-discover s other shape epoch e e' h h' = elim (Option-cases (lookup other s.entries)) [
    | inr (t, there) ↦ Fences-same s.entries s.entries refl e e' h (rw (there, discover) at h')
    | inl absent ↦
        Fences-absent other (found_tap shape epoch) s.entries absent e e' h
          (rw (absent, discover) at h')
  ]
