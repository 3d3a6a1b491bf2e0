-- ===== src/Taps/Sound.antt =====
-- The pool stays sound, whatever calls come in whatever order: a device that is free is idle, and one
-- that a call works on has no other holder.
use kuma_box.Prelude.{
  ◌≡◌, sym, subst, inl, inr, Bool, true, false, not, ◌&&◌, Option, none, some, arith, Text, text_eq,
  text_eq_iff, is_empty, lookup, Unique, Bool-cases,
}
use kuma_box.Taps.{TapShape, shape_eq, is_ready, is_cleaning, PooledTap, free_list}
use kuma_box.Taps.Steps.{Job, borrowing, maintaining, releasing, Host}
use kuma_box.Taps.Free.{has_name, IsOnce}

abbrev is_preparing : PooledTap → Bool
is_preparing e = not (is_ready e.phase) && not (is_cleaning e.phase)

-- What an entry on the free list of a shape looks like, and who works on it.
abbrev pub is_idle : TapShape → Option PooledTap → Option Job → Bool
is_idle shape (some e) none = shape_eq e.shape shape && is_ready e.phase && is_empty e.owner
is_idle shape (some e) (some job) = false
is_idle shape none job = false

-- What the entry of a job looks like.
abbrev pub fits : Option Job → Option PooledTap → Bool
fits none e = true
fits (some borrowing) (some e) = is_empty e.owner && not (is_cleaning e.phase)
fits (some maintaining) (some e) = is_empty e.owner && not (is_cleaning e.phase)
fits (some releasing) (some e) = not (is_empty e.owner)
fits (some job) none = false

pub record IsSound (s : Host) : Type 0 where
  pub idle :
      (shape : TapShape) (name : Text)
      → has_name name (free_list shape s.pool.free) ≡ true
      → is_idle shape (lookup name s.pool.entries) (lookup name s.jobs) ≡ true
  pub held : (name : Text) → fits (lookup name s.jobs) (lookup name s.pool.entries) ≡ true
  pub once : (shape : TapShape) → IsOnce (free_list shape s.pool.free)
  pub unique : Unique s.pool.entries

-- A device that somebody works on or owns, or that is not there, is on no free list.
abbrev pub IsOff : Text → Host → Type 0
IsOff name s =
    (shape : TapShape) → is_idle shape (lookup name s.pool.entries) (lookup name s.jobs) ≡ false

-- A step that touches one device which is on no free list.
pub record IsLocal (name : Text) (s s' : Host) : Type 0 where
  pub off : IsOff name s
  pub free : s'.pool.free ≡ s.pool.free
  pub entries :
      (other : Text)
      → text_eq name other ≡ false
      → lookup other s'.pool.entries ≡ lookup other s.pool.entries
  pub jobs :
      (other : Text) → text_eq name other ≡ false → lookup other s'.jobs ≡ lookup other s.jobs
  pub fit : fits (lookup name s'.jobs) (lookup name s'.pool.entries) ≡ true
  pub one : Unique s'.pool.entries

pub IsLocal-IsSound : (name : Text) (s s' : Host) → IsLocal name s s' → IsSound s → IsSound s'
IsLocal-IsSound name s s' l v = record {
  idle = λ shape other h. elim (Bool-cases (text_eq name other)) [
    | inl same ↦
        let eq : name ≡ other = (text_eq_iff name other).0 same in
        let there : has_name name (free_list shape s.pool.free) ≡ true = rw (l.free, sym eq) at h in
        absurd (ground (arith, v.idle shape name there, l.off shape))
    | inr apart ↦
        rw (l.entries other apart, l.jobs other apart) (v.idle shape other (rw l.free at h))
  ];
  held = λ other. elim (Bool-cases (text_eq name other)) [
    | inl same ↦
        subst (λ n. fits (lookup n s'.jobs) (lookup n s'.pool.entries) ≡ true)
          ((text_eq_iff name other).0 same) l.fit
    | inr apart ↦ rw (l.entries other apart, l.jobs other apart) (v.held other)
  ];
  once = λ shape. rw l.free (v.once shape);
  unique = l.one;
}
