-- ===== src/Storage/Custodies.antt =====
-- The custody rows: what `load_custody_record` finds after a write (courier/storage.py).
use cs60_final_project.Common.{
  ◌≡◌, ◌∙◌, ap, not, some, [], ◌∷◌, Text, text_beq, text_beq_iff, arith, if◌then◌else◌,
}
use cs60_final_project.Storage.{
  Storage, CustodyRow, loaded, custody_dict, keep, find, has_custody_id, save_custody_record,
  load_custody_record,
}
use cs60_final_project.Storage.Tables.{find-append, find-keep_bundle, or_else-none}

module _ {T : Type 0} where
  pub load_custody_record-save_custody_record :
      (row : CustodyRow T) (d : Text) (s : Storage T)
      → load_custody_record d (save_custody_record row s)
        ≡ (if text_beq row.bundle_id d then some (custody_dict row) else load_custody_record d s)
  unfolding load_custody_record save_custody_record
  load_custody_record-save_custody_record row d s =
      ap loaded (
        find-append (has_custody_id d)
          (keep (λ x. not (has_custody_id row.bundle_id x)) s.custody_records) (row ∷ []))
      ∙ ground (
        arith,
        find-keep_bundle (λ (x : CustodyRow T). x.bundle_id) (has_custody_id d) row.bundle_id d
            s.custody_records (λ x h. (text_beq_iff x.bundle_id d).0 h),
        or_else-none (find (has_custody_id d) s.custody_records),
      )
