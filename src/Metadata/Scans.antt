-- ===== src/Metadata/Scans.antt =====
-- A scan meets every key of its collection: what a callback over all records finds or collects.
use kuma_box.Prelude.{
  Has, Has-append_left, Has-append_last, ◌≡◌, sym, ap, inl, inr, Bool, true, false, Option, none,
  some, List, [], ◌∷◌, ◌++◌, arith, Text, text_eq, text_eq_iff, text_compare, Dict, lookup,
  if◌then◌else◌, Bool-cases,
}
use kuma_box.Errdefs.{Result, ok, ◌>>=◌, Result-cases}
use kuma_box.Metadata.{Transaction, get, collection, insert_entry, sort_entries, scan_entries, scan}
use Prim.Native.Nat.{Ordering}

module _ {Raw : Type 0} (entry : Text × Raw) where
  pub Has-lookup : (es : Dict Raw) → lookup entry.0 es ≡ some entry.1 → Has entry es
  unfolding lookup
  Has-lookup [] h = absurd (ground arith)
  Has-lookup ((k, v) ∷ es) h = elim (Bool-cases (text_eq k entry.0)) [
    | inl same ↦
        let key : k ≡ entry.0 = (text_eq_iff k entry.0).0 same in
        let value : v ≡ entry.1 = ground arith in inl (λ i. (key i, value i))
    | inr apart ↦ inr (Has-lookup es (rw apart at h))
  ]

  Has-insert_entry :
      (e : Text × Raw) (es : Dict Raw) → Has entry (e ∷ es) → Has entry (insert_entry e es)
  unfolding insert_entry
  Has-insert_entry e [] w = w
  Has-insert_entry e (x ∷ xs) w =
      elim (text_compare e.0 x.0)
        as (λ o. Has entry (elim o [ Ordering.gt ↦ x ∷ insert_entry e xs | _ ↦ e ∷ x ∷ xs ])) [
          | Ordering.gt ↦ elim w [
            | inl same ↦ inr (Has-insert_entry e xs (inl same))
            | inr later ↦ elim later [
              | inl same ↦ inl same
              | inr deeper ↦ inr (Has-insert_entry e xs (inr deeper))
            ]
          ]
          | Ordering.lt ↦ w
          | Ordering.eq ↦ w
        ]

  pub Has-sort_entries : (es : Dict Raw) → Has entry es → Has entry (sort_entries es)
  unfolding sort_entries
  Has-sort_entries [] w = w
  Has-sort_entries (e ∷ es) w =
      Has-insert_entry e (sort_entries es)
        (elim w [ inl same ↦ inl same | inr later ↦ inr (Has-sort_entries es later) ])

module _ {Raw R : Type 0} (read : Text → Raw → Result (Option R)) where
  abbrev append_found : List R → Option R → List R
  append_found rs none = rs
  append_found rs (some r) = rs ++ (r ∷ [])

  -- A callback that collects what it finds.
  abbrev pub collecting : Text → Raw → List R → Result (List R)
  collecting key raw rs = do found ← read key raw; ok (append_found rs found)

  Has-append_found :
      (r : R) (rs : List R) (found : Option R) → Has r rs → Has r (append_found rs found)
  Has-append_found r rs none h = h
  Has-append_found r rs (some q) h = Has-append_left r rs (q ∷ []) h

  scan_entries-keeps :
      (r : R) (es : Dict Raw) (rs out : List R)
      → Has r rs
      → scan_entries collecting es rs ≡ ok out
      → Has r out
  unfolding scan_entries
  scan_entries-keeps r [] rs out h k = let same : rs ≡ out = ground arith in rw (sym same) h
  scan_entries-keeps r ((key, raw) ∷ es) rs out h k = elim (Result-cases (read key raw)) [
    | inl (found, e) ↦
        scan_entries-keeps r es (append_found rs found) out (Has-append_found r rs found h)
          (rw e at k)
    | inr (f, e) ↦ absurd (ground arith)
  ]

  scan_entries-Has :
      (key : Text) (raw : Raw) (r : R) (es : Dict Raw) (rs out : List R)
      → read key raw ≡ ok (some r)
      → Has (key, raw) es
      → scan_entries collecting es rs ≡ ok out
      → Has r out
  unfolding scan_entries
  scan_entries-Has key raw r [] rs out e h k = absurd h
  scan_entries-Has key raw r ((key', raw') ∷ es) rs out e (inl same) k =
      let keys : key' ≡ key = ap (λ q. q.0) same in
      let raws : raw' ≡ raw = ap (λ q. q.1) same in
      scan_entries-keeps r es (rs ++ (r ∷ [])) out (Has-append_last r rs) (rw (keys, raws, e) at k)
  scan_entries-Has key raw r ((key', raw') ∷ es) rs out e (inr later) k =
      elim (Result-cases (read key' raw')) [
        | inl (found, d) ↦
            scan_entries-Has key raw r es (append_found rs found) out e later (rw d at k)
        | inr (f, d) ↦ absurd (ground arith)
      ]

  -- When a collecting scan answers, what a stored value reads as is in the answer.
  pub scan-Has :
      (t : Transaction Raw) (c key : Text) (raw : Raw) (r : R) (out : List R)
      → get t c key ≡ ok (some raw)
      → read key raw ≡ ok (some r)
      → scan t c collecting [] ≡ ok out
      → Has r out
  unfolding scan get
  scan-Has t c key raw r out stored e k = elim (Result-cases (collection t c)) [
    | inr (f, d) ↦ absurd (ground arith)
    | inl (entries, d) ↦
        scan_entries-Has key raw r (sort_entries entries) [] out e
          (Has-sort_entries (key, raw) entries (Has-lookup (key, raw) entries (ground arith)))
          (rw d at k)
  ]

module _ {Raw R : Type 0} (read : Raw → Result R) (test : R → Bool) where
  -- A callback that asks whether some record passes a test.
  abbrev pub asking : Text → Raw → Bool → Result Bool
  asking key raw used = do r ← read raw; ok (if test r then true else used)

  scan_entries-used : (es : Dict Raw) (b : Bool) → scan_entries asking es true ≡ ok b → b ≡ true
  unfolding scan_entries
  scan_entries-used [] b h = ground arith
  scan_entries-used ((key, raw) ∷ es) b h = elim (Result-cases (read raw)) [
    | inl (r, e) ↦ scan_entries-used es b (ground arith)
    | inr (f, e) ↦ absurd (ground arith)
  ]

  scan_entries-asking :
      (key : Text) (raw : Raw) (r : R) (es : Dict Raw) (used b : Bool)
      → read raw ≡ ok r
      → test r ≡ true
      → Has (key, raw) es
      → scan_entries asking es used ≡ ok b
      → b ≡ true
  unfolding scan_entries
  scan_entries-asking key raw r [] used b e passes w h = absurd w
  scan_entries-asking key raw r ((key', raw') ∷ es) used b e passes (inl same) h =
      let raws : raw' ≡ raw = ap (λ q. q.1) same in
      scan_entries-used es b (rw (raws, e, passes) at h)
  scan_entries-asking key raw r ((key', raw') ∷ es) used b e passes (inr later) h =
      elim (Result-cases (read raw')) [
        | inl (q, d) ↦
            scan_entries-asking key raw r es (if test q then true else used) b e passes later
              (rw d at h)
        | inr (f, d) ↦ absurd (ground arith)
      ]

  -- When such a scan answers and a stored value passes the test, the answer is yes.
  pub scan-asking :
      (t : Transaction Raw) (c key : Text) (raw : Raw) (r : R) (b : Bool)
      → get t c key ≡ ok (some raw)
      → read raw ≡ ok r
      → test r ≡ true
      → scan t c asking false ≡ ok b
      → b ≡ true
  unfolding scan get
  scan-asking t c key raw r b stored e passes h = elim (Result-cases (collection t c)) [
    | inr (f, d) ↦ absurd (ground arith)
    | inl (entries, d) ↦
        scan_entries-asking key raw r (sort_entries entries) false b e passes
          (Has-sort_entries (key, raw) entries (Has-lookup (key, raw) entries (ground arith)))
          (rw d at h)
  ]
