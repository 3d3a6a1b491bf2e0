-- ===== src/Snapshots/Access/Steps.antt =====
-- The buffer under concurrent calls: each step is what one call does while it holds the mutex, or one
-- transaction. The flush token lets one batch be under way at a time.
use kuma_box.Prelude.{
  ℕ, ◌≤◌, ◌≡◌, ◌≢◌, refl, sym, ap, subst, ◌∙◌, inl, inr, true, false, some, arith, Text, Dict,
}
use kuma_box.Errdefs.{Failure, Result, ok, err, Result-cases}
use kuma_box.Metadata.{Store, Weather, begin, update}
use kuma_box.Metadata.Laws.{begin-live, update-eq-ok, update-eq-err}
use kuma_box.Snapshots.Records.{SnapshotData, SnapshotCodecs, access_time}
use kuma_box.Snapshots.Operations.{load_data}
use kuma_box.Snapshots.Access.{Buffer, later, pending_at, record_once, retire, persist}
use kuma_box.Snapshots.Access.Persist.{
  IsCarried, IsCarried-refl, IsCarried-trans, latest_of, IsFlushed, persist-IsFlushed, ready_kept,
  deleting_kept,
}
use kuma_box.Snapshots.Access.Retire.{record_once-IsRecorded, retire-le}

-- A flush that has taken a batch: before its transaction, and after it.
pub data Flush : Type 0 where
  idle : Flush
  taken written : Dict ℕ → Flush

pub record Shared (Raw : Type 0) : Type 0 where
  pub store : Store Raw
  pub buffer : Buffer
  pub flush : Flush

module _ {Raw : Type 0} (c : SnapshotCodecs Raw) where
  pub data AccessStep (s s' : Shared Raw) : Type 0 where
    records :
        (id : Text) (accessed latest : ℕ) (b' : Buffer)
        → record_once s.buffer id accessed ≡ some (latest, b')
        → s' ≡ record s { buffer = b' }
        → AccessStep s s'
    takes : s.flush ≡ idle → s' ≡ record s { flush = taken s.buffer.pending } → AccessStep s s'
    writes :
        (batch : Dict ℕ) (w : Weather) (store' : Store Raw)
        → s.flush ≡ taken batch
        → update w (persist c batch) s.store ≡ (ok tt, store')
        → s' ≡ record s { store = store'; flush = written batch }
        → AccessStep s s'
    fails_to_write :
        (batch : Dict ℕ) (w : Weather) (store' : Store Raw) (f : Failure)
        → s.flush ≡ taken batch
        → update w (persist c batch) s.store ≡ (err f, store')
        → s' ≡ record s { store = store'; flush = idle }
        → AccessStep s s'
    retires :
        (batch : Dict ℕ)
        → s.flush ≡ written batch
        → s' ≡ record s { buffer = retire batch s.buffer; flush = idle }
        → AccessStep s s'

  abbrev pub stored_at : Shared Raw → Text → Result SnapshotData
  stored_at s j = load_data c (begin false s.store) j

  -- A batch that was written is in the store.
  abbrev pub IsSound : Shared Raw → Type 0
  IsSound s =
      (batch : Dict ℕ) (j : Text) (d : SnapshotData)
      → s.flush ≡ written batch
      → stored_at s j ≡ ok d
      → d.ready ≡ true
      → d.deleting ≡ false
      → latest_of batch j ≤ access_time d

  -- What a reader of the record is told.
  abbrev pub visible : Shared Raw → Text → SnapshotData → ℕ
  visible s j d = later (access_time d) (pending_at s.buffer j)

  -- The record is there as before, and its visible usage time is no earlier.
  abbrev pub IsForward : Shared Raw → Shared Raw → Type 0
  IsForward s s' =
      (j : Text) (d : SnapshotData)
      → stored_at s j ≡ ok d
      → d.ready ≡ true
      → d.deleting ≡ false
      → (d' : SnapshotData) × (stored_at s' j ≡ ok d')
        × IsCarried d d'
        × (visible s j d ≤ visible s' j d')

  IsForward-same_store :
      (s s' : Shared Raw)
      → begin false s'.store ≡ begin false s.store
      → ((j : Text) → pending_at s.buffer j ≤ pending_at s'.buffer j)
      → IsForward s s'
  IsForward-same_store s s' same grows j d h r n =
      (d, ap (λ t. load_data c t j) same ∙ h, IsCarried-refl d, ground (arith, grows j))

  written-IsFlushed :
      (batch : Dict ℕ) (w : Weather) (store store' : Store Raw)
      → update w (persist c batch) store ≡ (ok tt, store')
      → IsFlushed c (begin false store) batch (begin false store')
  written-IsFlushed batch w store store' h =
      let (t', body, there) = update-eq-ok w store (persist c batch) (ap (λ q. q.0) h) in
      let f = persist-IsFlushed c batch (begin false store) t' body in
      subst (IsFlushed c (begin false store) batch)
        (sym (
          begin-live store' t' f.live
            (ap (λ (q : Store Raw). q.records) (sym (ap (λ q. q.1) h)) ∙ there)))
        f

  IsForward-writes :
      (s s' : Shared Raw) (batch : Dict ℕ)
      → s'.buffer ≡ s.buffer
      → IsFlushed c (begin false s.store) batch (begin false s'.store)
      → IsForward s s'
  IsForward-writes s s' batch same f j d h r n =
      let (d', k, carried, a) = f.each j d h in
      (d', k, carried, rw same (ground (arith, carried.later)))

  IsForward-retires :
      (s s' : Shared Raw) (batch : Dict ℕ)
      → IsSound s
      → s.flush ≡ written batch
      → s'.store ≡ s.store
      → s'.buffer ≡ retire batch s.buffer
      → IsForward s s'
  IsForward-retires s s' batch sound e same now j d h r n = (
    d,
    ap (λ q. load_data c (begin false q) j) same ∙ h,
    IsCarried-refl d,
    rw now (ground (arith, sound batch j d e h r n, retire-le batch s.buffer j)),
  )

  -- No step of any interleaving takes a usage time back.
  AccessStep-IsForward : (s s' : Shared Raw) → IsSound s → AccessStep s s' → IsForward s s'
  AccessStep-IsForward s s' sound (records id accessed latest b' h e) =
      IsForward-same_store s s' (ap (λ (q : Shared Raw). begin false q.store) e)
        (λ j. rw e ((record_once-IsRecorded s.buffer id accessed latest b' h).grows j))
  AccessStep-IsForward s s' sound (takes i e) =
      IsForward-same_store s s' (ap (λ (q : Shared Raw). begin false q.store) e)
        (λ j. rw e (omega arith))
  AccessStep-IsForward s s' sound (writes batch w store' t h e) =
      IsForward-writes s s' batch (ap (λ (q : Shared Raw). q.buffer) e)
        (rw e (written-IsFlushed batch w s.store store' h))
  AccessStep-IsForward s s' sound (fails_to_write batch w store' f t h e) =
      IsForward-same_store s s'
        (begin-live s'.store (begin false s.store) refl (
          ap (λ (q : Shared Raw). q.store.records) e
          ∙ ap (λ q. q.1.records) (sym h)
          ∙ update-eq-err w s.store (persist c batch) (ap (λ q. q.0) h)))
        (λ j. rw e (omega arith))
  AccessStep-IsForward s s' sound (retires batch t e) =
      IsForward-retires s s' batch sound t (ap (λ (q : Shared Raw). q.store) e)
        (ap (λ (q : Shared Raw). q.buffer) e)

  written_same : {a b : Dict ℕ} → written a ≡ written b → a ≡ b
  written_same h = cc

  err-not-ok : {f : Failure} {d : SnapshotData} → err f ≢ ok d
  err-not-ok h = cc

  ok_same : {a b : SnapshotData} → ok a ≡ ok b → a ≡ b
  ok_same h = cc

  pub idle-not-written : {batch : Dict ℕ} → idle ≢ written batch
  idle-not-written h = cc

  taken-not-written : {a b : Dict ℕ} → taken a ≢ written b
  taken-not-written h = cc

  IsSound-writes :
      (s s' : Shared Raw) (batch : Dict ℕ)
      → s'.flush ≡ written batch
      → IsFlushed c (begin false s.store) batch (begin false s'.store)
      → IsSound s'
  IsSound-writes s s' batch now f other j d' e h r n = elim (Result-cases (stored_at s j)) [
    | inr (g, k) ↦ absurd (err-not-ok (sym (f.lost j g k) ∙ h))
    | inl (d, k) ↦
        let (d2, k2, carried, a) = f.each j d k in
        let same : d2 ≡ d' = ok_same (sym k2 ∙ h) in
        let batches : batch ≡ other = written_same (sym now ∙ e) in
        subst (λ z. latest_of z j ≤ access_time d') batches
          (subst (λ z. latest_of batch j ≤ access_time z) same
            (a
              (sym (ap (λ (z : SnapshotData). z.ready) carried.same)
                ∙ ap (λ (z : SnapshotData). z.ready) same
                ∙ r)
              (sym (ap (λ (z : SnapshotData). z.deleting) carried.same)
                ∙ ap (λ (z : SnapshotData). z.deleting) same
                ∙ n)))
  ]

  AccessStep-IsSound : (s s' : Shared Raw) → IsSound s → AccessStep s s' → IsSound s'
  AccessStep-IsSound s s' sound (records id accessed latest b' h e) batch j d t k =
      sound batch j d (sym (ap (λ (q : Shared Raw). q.flush) e) ∙ t)
        (sym (ap (λ (q : Shared Raw). stored_at q j) e) ∙ k)
  AccessStep-IsSound s s' sound (takes i e) batch j d t k =
      absurd (taken-not-written (sym (ap (λ (q : Shared Raw). q.flush) e) ∙ t))
  AccessStep-IsSound s s' sound (writes batch' w store' t' h e) batch j d t k =
      IsSound-writes s s' batch' (ap (λ (q : Shared Raw). q.flush) e)
        (rw e (written-IsFlushed batch' w s.store store' h)) batch j d t k
  AccessStep-IsSound s s' sound (fails_to_write batch' w store' f t' h e) batch j d t k =
      absurd (idle-not-written (sym (ap (λ (q : Shared Raw). q.flush) e) ∙ t))
  AccessStep-IsSound s s' sound (retires batch' t' e) batch j d t k =
      absurd (idle-not-written (sym (ap (λ (q : Shared Raw). q.flush) e) ∙ t))

  -- Any interleaving of recordings and flushes.
  pub data AccessRun : Shared Raw → Shared Raw → Type 0 where
    rests : (s : Shared Raw) → AccessRun s s
    goes : (s u s' : Shared Raw) → AccessStep s u → AccessRun u s' → AccessRun s s'

  IsForward-trans : (s u s' : Shared Raw) → IsForward s u → IsForward u s' → IsForward s s'
  IsForward-trans s u s' f g j d h r n =
      let (d1, k1, c1, le1) = f j d h r n in
      let (d2, k2, c2, le2) = g j d1 k1 (ready_kept d d1 c1 r) (deleting_kept d d1 c1 n) in
      (d2, k2, IsCarried-trans d d1 d2 c1 c2, omega (arith, le1, le2))

  -- In any interleaving of recordings and of flushes that take, write or fail to write, and
  -- retire their batches, from a state in which a batch that was written is in the store, each
  -- ready snapshot that is not being deleted stays so, and the usage time that a reader is told
  -- never goes back.
  pub AccessRun-IsForward : (s s' : Shared Raw) → IsSound s → AccessRun s s' → IsForward s s'
  AccessRun-IsForward s s' sound (rests _) j d h r n = (d, h, IsCarried-refl d, omega arith)
  AccessRun-IsForward s s' sound (goes _ u _ step rest) j d h r n =
      IsForward-trans s u s' (AccessStep-IsForward s u sound step)
        (AccessRun-IsForward u s' (AccessStep-IsSound s u sound step) rest) j d h r n
