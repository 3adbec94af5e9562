-- ===== src/Kvstore/Handles/Interface.antt =====
-- `update` and `retrieve` of kvstore/handles/basic.hpp as the store of a server: the laws that
-- the servers rely on.
use flexps_paper_version.Common.{
  ℕ, zero, suc, ◌<◌, ◌≡◌, refl, Bool, false, List, [], ◌∷◌, Result, ok, arith, length,
}
use flexps_paper_version.Kvstore.Messages.{Handle}
use flexps_paper_version.Kvstore.RangeManager.{RangeManager}
use flexps_paper_version.Kvstore.Handles.{
  Bin, KvPairs, Place, Store, apply_pairs, apply_chunks, apply_chunk, put, interval, index, update,
  retrieve,
}

-- As many values as keys, and as many chunks as chunk ids.
abbrev pub IsComplete : {Val : Type 0} → Bin Val → Type 0
IsComplete bin = (length bin.keys ≡ length bin.vals) × (length bin.chunk_ids ≡ length bin.chunks)

module _ {Val : Type 0} (add : Val → Val → Val) where
  abbrev Ok : Result (Store Val) → Type 0
  Ok r = (s : Store Val) × (r ≡ ok s)

  apply_pairs_total :
      (b : Bool) (first : ℕ) (ks : List ℕ) (vs : List Val) (s : Store Val)
      → length ks ≡ length vs
      → Ok (apply_pairs add b first ks vs s)
  unfolding apply_pairs
  apply_pairs_total b first [] vs s len = (s, refl)
  apply_pairs_total b first (k ∷ ks) [] s len = absurd (omega arith)
  apply_pairs_total b first (k ∷ ks) (v ∷ vs) s len =
      apply_pairs_total b first ks vs (put add b (index first k) v s) (omega arith)

  apply_chunks_total :
      (b : Bool) (first size : ℕ) (cs : List ℕ) (chunks : List (List Val)) (s : Store Val)
      → length cs ≡ length chunks
      → Ok (apply_chunks add b first size cs chunks s)
  unfolding apply_chunks
  apply_chunks_total b first size [] chunks s len = (s, refl)
  apply_chunks_total b first size (c ∷ cs) [] s len = absurd (omega arith)
  apply_chunks_total b first size (c ∷ cs) (vs ∷ chunks) s len =
      apply_chunks_total b first size cs chunks (apply_chunk add b first _ vs s) (omega arith)

  module _ (m : RangeManager) (p : Place) (is_map : p.is_vector ≡ false) where
    -- An unordered_map has a place for every key, and is not asked for an interval.
    map_interval : (kv_id : ℕ) → interval m p kv_id ≡ ok 0
    unfolding interval
    map_interval kv_id = rw is_map refl

    -- A complete push with a known command is applied.
    pub update_total :
        (kv_id cmd : ℕ) (b : Bool) (bin : Bin Val) (s : Store Val)
        → cmd < 4
        → IsComplete bin
        → Ok (update add m p kv_id cmd b bin s)
    unfolding update
    update_total kv_id zero b bin s known complete =
        rw (map_interval kv_id) (apply_pairs_total b _ bin.keys bin.vals s complete.0)
    update_total kv_id (suc zero) b bin s known complete =
        rw (map_interval kv_id) (apply_chunks_total b _ _ bin.chunk_ids bin.chunks s complete.1)
    update_total kv_id (suc (suc zero)) b bin s known complete =
        rw (map_interval kv_id) (apply_pairs_total b _ bin.keys bin.vals s complete.0)
    update_total kv_id (suc (suc (suc zero))) b bin s known complete =
        rw (map_interval kv_id) (apply_chunks_total b _ _ bin.chunk_ids bin.chunks s complete.1)
    update_total kv_id (suc (suc (suc (suc n)))) b bin s known complete = absurd (omega arith)

    -- A pull with a known command is answered.
    pub retrieve_total :
        (kv_id cmd : ℕ) (bin : Bin Val) (s : Store Val)
        → cmd < 4
        → Unit {0}
        → (sent : KvPairs Val) × (retrieve m p kv_id cmd bin s ≡ ok sent)
    unfolding retrieve
    retrieve_total kv_id zero bin s known readable = rw (map_interval kv_id) (_, refl)
    retrieve_total kv_id (suc zero) bin s known readable = rw (map_interval kv_id) (_, refl)
    retrieve_total kv_id (suc (suc zero)) bin s known readable = rw (map_interval kv_id) (_, refl)
    retrieve_total kv_id (suc (suc (suc zero))) bin s known readable =
        rw (map_interval kv_id) (_, refl)
    retrieve_total kv_id (suc (suc (suc (suc n)))) bin s known readable = absurd (omega arith)

    -- The store of a server that is an unordered_map.
    abbrev pub basic_handle : Handle
    basic_handle = record {
      Bin = Bin Val;
      Store = Store Val;
      Pairs = KvPairs Val;
      size = λ bin. bin.size;
      IsComplete = IsComplete;
      IsReadable = λ _. Unit;
      no_pairs = record { keys = []; vals = [] };
      next_num_workers = λ bin. bin.next_num_workers;
      update = update add m p;
      retrieve = retrieve m p;
      update_total = update_total;
      retrieve_total = retrieve_total;
    }
