-- ===== src/Server/Optimistic/Next.antt =====
-- internal/server/optimistic.go, `NextMeta`: how the numbers of a document move.
use go_es.Prelude.{
  zero, suc, ◌^◌, ◌≡◌, ◌≢◌, true, some, Text, text_Comparable, text, arith, ◌-◌, ◌⊎◌, suc,
  text_eq_iff,
}
use go_es.Prelude.Int.{ℤ, pos, negsuc, ◌+ℤ◌, wrap64, next64, ltb_ℤ, leb_ℤ}
use go_es.Server.Optimistic.{DocMeta, meta, next_meta, next_version, next_seq}

-- A number of an int64 that has a successor.
unfoldable pub HasNext : ℤ → Type 0
HasNext x = (leb_ℤ (negsuc (2 ^ 63 - 1)) x ≡ true) × (ltb_ℤ x (pos (2 ^ 63 - 1)) ≡ true)

pub next64_gt : (x : ℤ) → HasNext x → ltb_ℤ x (next64 x) ≡ true
unfolding next64 wrap64 HasNext ◌+ℤ◌
next64_gt (pos n) (a, b) = ground arith
next64_gt (negsuc zero) (a, b) = ground arith
next64_gt (negsuc (suc n)) (a, b) = ground arith

-- The metadata of an accepted write to a document whose sequence number is an int64 below the
-- largest has the next sequence number, which is greater.
pub next_meta-seq_no :
    (m m' : DocMeta) (seq_no primary_term version : ℤ) (version_type : Text)
    → HasNext m.seq_no
    → next_meta (some m) true seq_no primary_term version version_type ≡ meta m'
    → (m'.seq_no ≡ next64 m.seq_no) × (ltb_ℤ m.seq_no m'.seq_no ≡ true)
unfolding next_meta next_seq
next_meta-seq_no m m' seq_no primary_term version version_type b h =
    let m'_next : m'.seq_no ≡ next64 m.seq_no = ground arith in
    (m'_next, rw (m'_next) (next64_gt m.seq_no b))

-- If the version of a document is an int64 below the largest, an accepted write of any version
-- type but `external` gives it a version that is not less, and greater unless the type is
-- `external_gte`.
pub next_meta-version :
    (m m' : DocMeta) (seq_no primary_term version : ℤ) (version_type : Text)
    → HasNext m.version
    → version_type ≢ text "external"
    → next_meta (some m) true seq_no primary_term version version_type ≡ meta m'
    → (leb_ℤ m.version m'.version ≡ true)
      × (version_type ≡ text "external_gte" ⊎ ltb_ℤ m.version m'.version ≡ true)
unfolding next_meta next_version
next_meta-version m m' seq_no primary_term version version_type b x h = ground (
  arith,
  next64_gt m.version b,
  text_eq_iff version_type (text "external"),
  text_eq_iff version_type (text "external_gte"),
)
