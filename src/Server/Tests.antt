-- ===== src/Server/Tests.antt =====
-- internal/server: runs of writes and of segment lookups, and the theorems at concrete inputs.
use go_es.Prelude.{
  ◌≡◌, ◌≢◌, refl, inl, true, false, ◌||◌, none, some, List, [], ◌∷◌, Text, text, text_eq,
  text_Comparable, arith,
}
use go_es.Prelude.Int.{pos, next64, wrap64, ◌+ℤ◌}
use go_es.Prelude.Maps.{lookup, insert}
use go_es.Prelude.Sets.{contains}
use go_es.Search.Value.{string}
use go_es.Search.Engine.{Doc, Terms, new_engine, get_source}
use go_es.Server.Keys.{doc_key, doc_meta_key}
use go_es.Server.Optimistic.{
  DocMeta, meta, WriteOp, Server, Surroundings, next_meta, next_version, next_seq, next_term,
  apply_write, read_doc_meta,
}
use go_es.Server.Optimistic.Next.{HasNext}
use go_es.Server.Optimistic.Writes.{SameContent, apply_write-refused}
use go_es.Server.Optimistic.Guarantees.{apply_write-stored, apply_write-exclusive}
use go_es.Server.Optimistic.Race.{raced, raced-apply_write}
use go_es.Server.Segment.{
  may_contain, add_term, new_bloom_filter, hash, fnv1a, fnv_loop, xor, set_bit, get_bit, zeros,
  add_hashes, has_hashes, search_term, reload,
}
use go_es.Server.Segment.Lookup.{
  segments_of, flushed_under, AllFillWords, FillsWords, search_term_lem,
}

abbrev current : DocMeta
current = record { seq_no = pos 4; primary_term = pos 1; version = pos 7; created = true }

abbrev seventh : DocMeta
seventh = record { seq_no = pos 5; primary_term = pos 1; version = pos 8; created = true }

seq_no-HasNext : HasNext (pos 4)
unfolding HasNext
seq_no-HasNext = (refl, refl)

version-HasNext : HasNext (pos 7)
unfolding HasNext
version-HasNext = (refl, refl)

steps : next_meta (some current) true (pos 4) (pos 0) (pos 0) [] ≡ meta seventh
unfolding next_meta next_version next_seq next_term next64 wrap64 ◌+ℤ◌ text_eq
steps = refl

not_external : [] ≢ text "external"
not_external e = cc

abbrev around : Surroundings
around = record { meta_get_fails = false; doc_put = none; meta_put = none; doc_size = pos 20 }

abbrev failing : Surroundings
failing = record {
  meta_get_fails = false;
  doc_put = none;
  meta_put = some (text "disk full");
  doc_size = pos 20;
}

abbrev doc : Doc
doc = (text "t", string (text "x")) ∷ []

abbrev write : WriteOp
write = record {
  index = text "i";
  id = text "1";
  doc = doc;
  op_type = [];
  if_seq_no = pos 4;
  if_primary_term = pos 0;
  if_version = pos 0;
  version = pos 0;
  version_type = [];
}

abbrev create : WriteOp
create = record write { op_type = text "create"; if_seq_no = pos 0 }

abbrev server : Server
server = record {
  docs = [];
  metas = (doc_meta_key (text "i") (text "1"), current) ∷ [];
  engine = new_engine;
  search_cache = none;
  buffers = none;
  conflicts = none;
  flush_due = [];
}

accepted : (apply_write around write server).1.error ≡ none
unfolding apply_write next_meta next_version text_eq lookup doc_meta_key
accepted = refl

refused : (apply_write around create server).1.status ≡ 409
unfolding apply_write next_meta next_version text_eq lookup doc_meta_key
refused = refl

apply_write-refused_example : SameContent (apply_write around create server).0 server
apply_write-refused_example = apply_write-refused around create server (inl refused)

apply_write-stored_example :
    (lookup (doc_key (text "i") (text "1")) (apply_write around write server).0.docs ≡ some doc)
    × (read_doc_meta (apply_write around write server).0 (text "i") (text "1")
        ≡ some (apply_write around write server).1.meta)
    × (get_source (apply_write around write server).0.engine (text "i") (text "1") ≡ some doc)
apply_write-stored_example = apply_write-stored around write server accepted

apply_write-exclusive_example :
    ((apply_write around write (apply_write around write server).0).1.status ≡ 409)
    × ((apply_write around write (apply_write around write server).0).0
        ≡ (apply_write around write server).0)
apply_write-exclusive_example =
    apply_write-exclusive around around write write server accepted refl refl refl refl 3 refl
      (omega arith)

-- The second write to the store fails: the new source is stored under the old metadata.
half_written :
    ((apply_write failing write server).1.status ≡ 500)
    × (lookup (doc_key (text "i") (text "1")) (apply_write failing write server).0.docs ≡ some doc)
    × ((apply_write failing write server).0.metas ≡ server.metas)
unfolding apply_write next_meta next_version text_eq lookup insert doc_key doc_meta_key
half_written = (refl, refl, refl)

abbrev other : WriteOp
other = record write { doc = [] }

accepted_alone : (apply_write around other server).1.error ≡ none
unfolding apply_write next_meta next_version text_eq lookup doc_meta_key
accepted_alone = refl

raced-apply_write_example :
    ((raced around around write other server).1.error ≡ none)
    × ((raced around around write other server).1.meta.seq_no
        ≡ (apply_write around write server).1.meta.seq_no)
    × (lookup (doc_key (text "i") (text "1")) (raced around around write other server).0.docs
        ≡ some [])
raced-apply_write_example =
    raced-apply_write around around write other server accepted accepted_alone refl refl refl refl

abbrev flushed : List (Text × Terms)
flushed = (text "t", (text "x", text "1" ∷ []) ∷ []) ∷ []

flushed-AllFillWords : AllFillWords flushed
unfolding AllFillWords FillsWords
flushed-AllFillWords = (refl, tt)

search_term_lem_example :
    contains (text "1") (search_term (text "t") (text "x") (segments_of flushed) [])
    ≡ (flushed_under (text "t") (text "x") (text "1") flushed || contains (text "1") [])
search_term_lem_example =
    search_term_lem flushed (text "t") (text "x") (text "1") [] flushed-AllFillWords

-- A filter for 103 terms that was filled with one of them no longer has it once it is read back.
term_lost :
    (may_contain (add_term (text "aa") (new_bloom_filter 103)) (text "aa") ≡ true)
    × (may_contain (reload (add_term (text "aa") (new_bloom_filter 103))) (text "aa") ≡ false)
unfolding may_contain add_term new_bloom_filter reload hash fnv1a fnv_loop xor set_bit get_bit zeros
    add_hashes has_hashes
term_lost = (refl, refl)
