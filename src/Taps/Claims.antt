-- ===== src/Taps/Claims.antt =====
-- The claim of every device that awaits cleaning.
use kuma_box.Prelude.{
  ◌≡◌, refl, ap, ◌∙◌, inl, inr, Bool, true, false, Option, none, some, List, [], ◌∷◌, if◌then◌else◌,
  arith, Text, text_eq, text_eq_iff, is_empty, Dict, lookup, lookup-insert, Unique, Bool-cases,
}
use kuma_box.Taps.{
  TapShape, PooledTap, claim, claim_tap, claim_entries, claimed_names, awaits_cleaning,
}
use kuma_box.Taps.Steps.{Job, maintaining, Host, hold_all}
use kuma_box.Taps.Free.{has_name}
use kuma_box.Taps.Sound.{is_idle, fits, IsSound}
use kuma_box.Taps.Taken.{ready_clean}

abbrev pub claim_option : Option PooledTap → Option PooledTap
claim_option none = none
claim_option (some e) = some (claim_tap e)

abbrev awaits_option : Option PooledTap → Bool
awaits_option none = false
awaits_option (some e) = awaits_cleaning e

pub lookup-claim_entries :
    (d : Dict PooledTap) (name : Text)
    → lookup name (claim_entries d) ≡ claim_option (lookup name d)
unfolding lookup claim_entries
lookup-claim_entries [] name = refl
lookup-claim_entries ((j, e) ∷ d) name = elim (Bool-cases (text_eq j name)) [
  | inl same ↦ rw same refl
  | inr apart ↦ rw apart (lookup-claim_entries d name)
]

Unique-claim_entries : (d : Dict PooledTap) → Unique d → Unique (claim_entries d)
unfolding claim_entries
Unique-claim_entries [] u = tt
Unique-claim_entries ((j, e) ∷ d) u =
    (rw (lookup-claim_entries d j, u.0) refl, Unique-claim_entries d u.1)

has_name-claimed_names :
    (d : Dict PooledTap) (name : Text)
    → Unique d
    → has_name name (claimed_names d) ≡ awaits_option (lookup name d)
unfolding has_name claimed_names lookup
has_name-claimed_names [] name u = refl
has_name-claimed_names ((j, e) ∷ d) name u = elim (Bool-cases (text_eq j name)) [
  | inl same ↦
      let eq : j ≡ name = (text_eq_iff j name).0 same in
      let later : has_name name (claimed_names d) ≡ false =
        has_name-claimed_names d name u.1 ∙ ap awaits_option (rw eq at u.0) in
      rw same (ground (arith, later))
  | inr apart ↦ rw apart (ground (arith, has_name-claimed_names d name u.1))
]

lookup-hold_all :
    (names : List Text) (jobs : Dict Job) (name : Text)
    → lookup name (hold_all names jobs)
      ≡ (if has_name name names then some maintaining else lookup name jobs)
unfolding has_name hold_all
lookup-hold_all [] jobs name = refl
lookup-hold_all (x ∷ names) jobs name =
    lookup-insert x name maintaining (hold_all names jobs)
    ∙ ground (arith, lookup-hold_all names jobs name)

idle_claimed :
    (shape : TapShape) (o : Option PooledTap) (j : Option Job)
    → is_idle shape o j ≡ true
    → is_idle shape (claim_option o) (if awaits_option o then some maintaining else j) ≡ true
idle_claimed shape none j h = absurd (ground arith)
idle_claimed shape (some e) (some job) h = absurd (ground arith)
idle_claimed shape (some e) none h =
    let stays : awaits_cleaning e ≡ false = ground (arith, ready_clean e.phase) in rw stays h

fits_claimed :
    (o : Option PooledTap) (j : Option Job)
    → fits j o ≡ true
    → fits (if awaits_option o then some maintaining else j) (claim_option o) ≡ true
fits_claimed none j h = h
fits_claimed (some e) j h = elim (Bool-cases (awaits_cleaning e)) [
  | inl waits ↦ let unowned : is_empty e.owner ≡ true = ground arith in rw (waits, unowned) refl
  | inr stays ↦ rw stays h
]

pub claim-IsSound :
    (s : Host)
    → IsSound s
    → IsSound
        (record { pool = claim s.pool; jobs = hold_all (claimed_names s.pool.entries) s.jobs })
claim-IsSound s v =
    let job : (name : Text)
        → lookup name (hold_all (claimed_names s.pool.entries) s.jobs) ≡ (
            if awaits_option (lookup name s.pool.entries)
            then some maintaining
            else lookup name s.jobs) =
      λ name.
        lookup-hold_all (claimed_names s.pool.entries) s.jobs name
        ∙ ap (λ b. if b then some maintaining else lookup name s.jobs)
            (has_name-claimed_names s.pool.entries name v.unique) in
    record {
      idle = λ shape name h.
          rw (lookup-claim_entries s.pool.entries name, job name)
            (idle_claimed shape (lookup name s.pool.entries) (lookup name s.jobs)
              (v.idle shape name h));
      held = λ name.
          rw (lookup-claim_entries s.pool.entries name, job name)
            (fits_claimed (lookup name s.pool.entries) (lookup name s.jobs) (v.held name));
      once = v.once;
      unique = Unique-claim_entries s.pool.entries v.unique;
    }
