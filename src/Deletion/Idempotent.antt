-- ===== src/Deletion/Idempotent.antt =====
-- Repeating a deletion changes nothing (crates/patwari-server/src/deletion.rs).
use mathlib.Core.Option
use patwari.Prelude.{
  Bool-cases, List, Option, Option-cases, Result-cases, Text, [], ap, arith, false, inl, inr, map,
  ok, refl, subst, sym, text_eq, text_eq_iff, true, ◌&&◌, ◌∙◌, ◌∷◌, ◌≡◌,
}
use patwari.Deletion.Archive.{Archive, SnapshotRow, Tombstone, is_live}
use patwari.Deletion.Confirm.{confirm_snapshot_deletion, deletion_reason, require_admin_enabled}
use patwari.Deletion.Delete.{
  DeletionRequest, Stamp, checked_deletion, confirmed_row, delete_live, delete_snapshot,
  mark_deleted, snapshot_deletion_row, tombstone_response,
}

row-mark :
    (other at id : Text) (l : List SnapshotRow)
    → snapshot_deletion_row id (map (mark_deleted other at) l)
      ≡ Option.map (mark_deleted other at) (snapshot_deletion_row id l)
unfolding snapshot_deletion_row
row-mark other at id [] = refl
row-mark other at id (s ∷ l) = elim (Bool-cases (text_eq s.id other && is_live s)) [
  | inl t ↦ ground (arith, row-mark other at id l, t)
  | inr f ↦ ground (arith, row-mark other at id l, f)
]

mark-id : (other at : Text) (s : SnapshotRow) → (mark_deleted other at s).id ≡ s.id
mark-id other at s = elim (Bool-cases (text_eq s.id other && is_live s)) [
  | inl t ↦ rw t refl
  | inr f ↦ rw f refl
]

mark-fingerprint :
    (other at : Text) (s : SnapshotRow)
    → (mark_deleted other at s).fingerprint_sha256 ≡ s.fingerprint_sha256
mark-fingerprint other at s = elim (Bool-cases (text_eq s.id other && is_live s)) [
  | inl t ↦ rw t refl
  | inr f ↦ rw f refl
]

mark-dead : (at : Text) (s : SnapshotRow) → is_live (mark_deleted s.id at s) ≡ false
mark-dead at s = elim (Bool-cases (text_eq s.id s.id && is_live s)) [
  | inl t ↦ rw t refl
  | inr f ↦ rw f (ground (arith, text_eq_iff s.id s.id))
]

-- The guards after the identifier is read, on a row that is found.
found-mark :
    (r : DeletionRequest) (other at id : Text) (l : List SnapshotRow) {s : SnapshotRow}
    {reason : Option Text}
    → confirmed_row r id l ≡ ok (s, reason)
    → confirmed_row r id (map (mark_deleted other at) l) ≡ ok (mark_deleted other at s, reason)
unfolding confirmed_row
found-mark r other at id l {s} {reason} h =
    elim (Result-cases (deletion_reason r.is_blank r.reason)) [
      | inl (e, x) ↦ ground (arith, x)
      | inr (why, x) ↦ elim (Option-cases (snapshot_deletion_row id l)) [
        | inl y ↦ ground (arith, x, y)
        | inr (row, y) ↦
            elim (Result-cases (
              confirm_snapshot_deletion r.to_str r.header_confirmation r.body_confirmation row.id
                row.fingerprint_sha256)) [
                  | inl (e, z) ↦ ground (arith, x, y, z)
                  | inr (u, z) ↦
                      let same : ◌≡◌ {A = SnapshotRow × Option Text} (row, why) (s, reason) =
                        ground (arith, x, y, z) in
                      rw (row-mark other at id l) (
                        rw x (
                          rw y (
                            rw (mark-id other at row) (
                              rw (mark-fingerprint other at row)
                                (rw z (ap (λ p. ok (mark_deleted other at p.0, p.1)) same))))))
                ]
      ]
    ]

-- The guards pass again, and give the marked row.
checked-mark :
    (r : DeletionRequest) (other at id : Text) (l : List SnapshotRow) {s : SnapshotRow}
    {reason : Option Text}
    → checked_deletion r id l ≡ ok (s, reason)
    → checked_deletion r id (map (mark_deleted other at) l) ≡ ok (mark_deleted other at s, reason)
unfolding checked_deletion
checked-mark r other at id l {s} {reason} h =
    elim (Result-cases (require_admin_enabled r.admin_deletion_enabled)) [
      | inl (e, x) ↦ ground (arith, x)
      | inr (u, x) ↦ elim (Option-cases (r.parse_uuid id)) [
        | inl y ↦ ground (arith, x, y)
        | inr (uuid, y) ↦ rw x (rw y (found-mark r other at uuid l (ground (arith, x, y))))
      ]
    ]

module _ (r : DeletionRequest) (stamp : Stamp) (id : Text) (a : Archive) (s : SnapshotRow)
    (reason : Option Text) (x : checked_deletion r id a.snapshots ≡ ok (s, reason)) where
  delete_snapshot-dead :
      is_live s ≡ false → delete_snapshot r stamp id a ≡ (tombstone_response s.id a.tombstones, a)
  unfolding delete_snapshot
  delete_snapshot-dead dead = rw (x, delete_snapshot) (rw dead refl)

  delete_snapshot-live :
      is_live s ≡ true
      → delete_snapshot r stamp id a ≡ (
        tombstone_response s.id (delete_live stamp s reason a).tombstones,
        delete_live stamp s reason a,
      )
  unfolding delete_snapshot
  delete_snapshot-live live = rw (x, delete_snapshot) (rw live refl)

  -- After the deletion the row is found, and is not live.
  checked-again :
      checked_deletion r id (delete_live stamp s reason a).snapshots
      ≡ ok (mark_deleted s.id stamp.deleted_at s, reason)
  unfolding delete_live
  checked-again = checked-mark r s.id stamp.deleted_at id a.snapshots x

-- A deletion that succeeded and is asked for again, with whatever clock and new UUIDs, has the
-- same answer and leaves the archive as the first one left it: no second tombstone or audit row,
-- and no blob is scheduled anew.
pub delete_snapshot-again :
    (r : DeletionRequest) (stamp stamp' : Stamp) (id : Text) (a : Archive) {t : Tombstone}
    {a' : Archive}
    → delete_snapshot r stamp id a ≡ (ok t, a')
    → delete_snapshot r stamp' id a' ≡ (ok t, a')
unfolding delete_snapshot
delete_snapshot-again r stamp stamp' id a {t} {a'} h =
    elim (Result-cases (checked_deletion r id a.snapshots)) [
      | inl (e, x) ↦ ground (arith, x)
      | inr ((s, reason), x) ↦ elim (Bool-cases (is_live s)) [
        | inr dead ↦
            let same = sym (delete_snapshot-dead r stamp id a s reason x dead) ∙ h in
            subst (λ z. delete_snapshot r stamp' id z ≡ (ok t, z)) (ap (λ p. p.1) same)
              (delete_snapshot-dead r stamp' id a s reason x dead ∙ ap (λ p. (p.0, a)) same)
        | inl live ↦
            let same = sym (delete_snapshot-live r stamp id a s reason x live) ∙ h in
            let b = delete_live stamp s reason a in
            let marked = mark_deleted s.id stamp.deleted_at s in
            subst (λ z. delete_snapshot r stamp' id z ≡ (ok t, z)) (ap (λ p. p.1) same)
              (delete_snapshot-dead r stamp' id b marked reason
                  (checked-again r stamp id a s reason x) (mark-dead stamp.deleted_at s)
                ∙ ap (λ i. (tombstone_response i b.tombstones, b)) (mark-id s.id stamp.deleted_at s)
                ∙ ap (λ p. (p.0, b)) same)
      ]
    ]
