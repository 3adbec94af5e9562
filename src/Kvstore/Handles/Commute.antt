-- ===== src/Kvstore/Handles/Commute.antt =====
-- Additive pushes of kvstore/handles/basic.hpp can be applied in any order: what makes it sound
-- that a server applies the pushes of its workers as they arrive.
use mathlib.Core.Path.{fun_ext}
use flexps_paper_version.Common.{
  ℕ, zero, suc, ◌+◌, ◌*◌, ◌<◌, ◌≡◌, ◌∙◌, refl, sym, ap, subst, false, List, [], ◌∷◌, Result, ok,
  err, out_of_range, ◌>>=◌, arith,
}
use flexps_paper_version.Kvstore.RangeManager.{RangeManager, get_chunk_size, get_server_interval}
use flexps_paper_version.Kvstore.Handles.{
  Bin, Place, Store, put, apply_pairs, apply_chunk, apply_chunks, interval, index, update,
}

map_ok : {A B : Type 0} → (A → B) → Result A → Result B
map_ok f (ok a) = ok (f a)
map_ok f (err e) = err e

map_ok->>= :
    {A B C : Type 0} (f : A → B) (r : Result A) (k : B → Result C)
    → (map_ok f r >>= k) ≡ (r >>= λ a. k (f a))
unfolding map_ok
map_ok->>= f (ok a) k = refl
map_ok->>= f (err e) k = refl

>>=-ok : {A : Type 0} (r : Result A) → (r >>= λ a. ok a) ≡ r
>>=-ok (ok a) = refl
>>=-ok (err e) = refl

map_ok-id : {A : Type 0} (r : Result A) → map_ok (λ a. a) r ≡ r
unfolding map_ok
map_ok-id (ok a) = refl
map_ok-id (err e) = refl

map_ok-map_ok :
    {A B C : Type 0} (f : B → C) (g : A → B) (r : Result A)
    → map_ok f (map_ok g r) ≡ map_ok (λ a. f (g a)) r
unfolding map_ok
map_ok-map_ok f g (ok a) = refl
map_ok-map_ok f g (err e) = refl

-- The only fault of a push with a known command.
abbrev pub Faults : {A : Type 0} → Result A → Type 0
Faults (ok a) = Unit
Faults (err e) = e ≡ out_of_range

fault : (A : Type 0) → Result A
fault A = err out_of_range

Faults->>= : {A B : Type 0} (r : Result A) → Faults r → (r >>= λ _. fault B) ≡ fault B
unfolding fault
Faults->>= (ok a) p = refl
Faults->>= (err e) p = ap err p

module _ {Val : Type 0} (add : Val → Val → Val)
    (swap : (x a b : Val) → add (add x a) b ≡ add (add x b) a) where
  put-put :
      (i j : ℕ) (v w : Val) (s : Store Val)
      → put add false i v (put add false j w s) ≡ put add false j w (put add false i v s)
  unfolding put
  put-put i j v w s = fun_ext λ k. ground (arith, swap (s k) w v)

  -- A push that a single addition can be moved through.
  record IsAdditive (f : Store Val → Result (Store Val)) : Type 0 where
    moves :
        (i : ℕ) (v : Val) (s : Store Val)
        → f (put add false i v s) ≡ map_ok (put add false i v) (f s)
    faults : (s : Store Val) → Faults (f s)

  pairs-moves :
      (n : ℕ) (ks : List ℕ) (vs : List Val) (i : ℕ) (v : Val) (s : Store Val)
      → apply_pairs add false n ks vs (put add false i v s)
        ≡ map_ok (put add false i v) (apply_pairs add false n ks vs s)
  unfolding apply_pairs map_ok
  pairs-moves n [] vs i v s = refl
  pairs-moves n (k ∷ ks) [] i v s = refl
  pairs-moves n (k ∷ ks) (w ∷ vs) i v s =
      rw (put-put (index n k) i w v s) (pairs-moves n ks vs i v (put add false (index n k) w s))

  pairs-Faults :
      (n : ℕ) (ks : List ℕ) (vs : List Val) (s : Store Val)
      → Faults (apply_pairs add false n ks vs s)
  unfolding apply_pairs
  pairs-Faults n [] vs s = tt
  pairs-Faults n (k ∷ ks) [] s = refl
  pairs-Faults n (k ∷ ks) (w ∷ vs) s = pairs-Faults n ks vs (put add false (index n k) w s)

  chunk-moves :
      (n start : ℕ) (vs : List Val) (i : ℕ) (v : Val) (s : Store Val)
      → apply_chunk add false n start vs (put add false i v s)
        ≡ put add false i v (apply_chunk add false n start vs s)
  unfolding apply_chunk
  chunk-moves n start [] i v s = refl
  chunk-moves n start (w ∷ vs) i v s =
      rw (put-put (index n start) i w v s)
        (chunk-moves n (start + 1) vs i v (put add false (index n start) w s))

  chunks-moves :
      (n size : ℕ) (cs : List ℕ) (chunks : List (List Val)) (i : ℕ) (v : Val) (s : Store Val)
      → apply_chunks add false n size cs chunks (put add false i v s)
        ≡ map_ok (put add false i v) (apply_chunks add false n size cs chunks s)
  unfolding apply_chunks map_ok
  chunks-moves n size [] chunks i v s = refl
  chunks-moves n size (c ∷ cs) [] i v s = refl
  chunks-moves n size (c ∷ cs) (vs ∷ chunks) i v s =
      rw (chunk-moves n (c * size) vs i v s)
        (chunks-moves n size cs chunks i v (apply_chunk add false n (c * size) vs s))

  chunks-Faults :
      (n size : ℕ) (cs : List ℕ) (chunks : List (List Val)) (s : Store Val)
      → Faults (apply_chunks add false n size cs chunks s)
  unfolding apply_chunks
  chunks-Faults n size [] chunks s = tt
  chunks-Faults n size (c ∷ cs) [] s = refl
  chunks-Faults n size (c ∷ cs) (vs ∷ chunks) s =
      chunks-Faults n size cs chunks (apply_chunk add false n (c * size) vs s)

  pairs-commute :
      (g : Store Val → Result (Store Val)) (n : ℕ) (ks : List ℕ) (vs : List Val) (s : Store Val)
      → IsAdditive g
      → (apply_pairs add false n ks vs s >>= g) ≡ (g s >>= apply_pairs add false n ks vs)
  unfolding apply_pairs fault
  pairs-commute g n [] vs s additive = sym (>>=-ok (g s))
  pairs-commute g n (k ∷ ks) [] s additive = sym (Faults->>= (g s) (additive.faults s))
  pairs-commute g n (k ∷ ks) (v ∷ vs) s additive =
      pairs-commute g n ks vs (put add false (index n k) v s) additive
      ∙ rw (additive.moves (index n k) v s) (map_ok->>= (put add false (index n k) v) (g s) _)

  chunk-through :
      (g : Store Val → Result (Store Val)) (n start : ℕ) (vs : List Val) (s : Store Val)
      → IsAdditive g
      → g (apply_chunk add false n start vs s) ≡ map_ok (apply_chunk add false n start vs) (g s)
  unfolding apply_chunk map_ok
  chunk-through g n start [] s additive = sym (map_ok-id (g s))
  chunk-through g n start (v ∷ vs) s additive =
      chunk-through g n (start + 1) vs (put add false (index n start) v s) additive
      ∙ rw (additive.moves (index n start) v s) (map_ok-map_ok _ _ (g s))

  chunks-commute :
      (g : Store Val → Result (Store Val)) (n size : ℕ) (cs : List ℕ) (chunks : List (List Val))
      (s : Store Val)
      → IsAdditive g
      → (apply_chunks add false n size cs chunks s >>= g)
        ≡ (g s >>= apply_chunks add false n size cs chunks)
  unfolding apply_chunks fault
  chunks-commute g n size [] chunks s additive = sym (>>=-ok (g s))
  chunks-commute g n size (c ∷ cs) [] s additive = sym (Faults->>= (g s) (additive.faults s))
  chunks-commute g n size (c ∷ cs) (vs ∷ chunks) s additive =
      chunks-commute g n size cs chunks (apply_chunk add false n (c * size) vs s) additive
      ∙ rw (chunk-through g n (c * size) vs s additive)
          (map_ok->>= (apply_chunk add false n (c * size) vs) (g s) _)

  fault-commute :
      (g : Store Val → Result (Store Val)) (s : Store Val)
      → IsAdditive g
      → (fault (Store Val) >>= g) ≡ (g s >>= λ _. fault (Store Val))
  unfolding fault
  fault-commute g s additive = sym (Faults->>= (g s) (additive.faults s))

  module _ (m : RangeManager) (p : Place) (kv_id : ℕ) where
    get_server_interval-Faults : Faults (interval m p kv_id)
    unfolding interval get_server_interval
    get_server_interval-Faults = ground arith

    through {ℓ} :
        (P : (Store Val → Result (Store Val)) → Type ℓ) (r : Result ℕ)
        (f : ℕ → Store Val → Result (Store Val))
        → Faults r
        → ((n : ℕ) → P (f n))
        → P (λ s. fault (Store Val))
        → P (λ s. r >>= λ i. f i s)
    unfolding fault
    through P (ok n) f p q wrong = q n
    through P (err e) f p q wrong = subst (λ x. P (λ s. err x)) (sym p) wrong

    -- What holds of both ways to apply a push and of the fault holds of `update`.
    update_cases {ℓ} :
        (P : (Store Val → Result (Store Val)) → Type ℓ) (cmd : ℕ) (bin : Bin Val)
        → cmd < 4
        → ((n : ℕ) → P (apply_pairs add false n bin.keys bin.vals))
        → ((n : ℕ) → P (apply_chunks add false n (get_chunk_size kv_id m) bin.chunk_ids bin.chunks))
        → P (λ s. fault (Store Val))
        → P (update add m p kv_id cmd false bin)
    unfolding update fault
    update_cases P zero bin known pairs chunks wrong =
        through P (interval m p kv_id) _ get_server_interval-Faults pairs wrong
    update_cases P (suc zero) bin known pairs chunks wrong =
        through P (interval m p kv_id) _ get_server_interval-Faults chunks wrong
    update_cases P (suc (suc zero)) bin known pairs chunks wrong =
        through P (interval m p kv_id) _ get_server_interval-Faults pairs wrong
    update_cases P (suc (suc (suc zero))) bin known pairs chunks wrong =
        through P (interval m p kv_id) _ get_server_interval-Faults chunks wrong
    update_cases P (suc (suc (suc (suc n)))) bin known pairs chunks wrong = absurd (omega arith)

    update-IsAdditive :
        (cmd : ℕ) (bin : Bin Val) → cmd < 4 → IsAdditive (update add m p kv_id cmd false bin)
    unfolding fault map_ok
    update-IsAdditive cmd bin known =
        update_cases IsAdditive cmd bin known
          (λ n. record {
            moves = pairs-moves n bin.keys bin.vals;
            faults = pairs-Faults n bin.keys bin.vals;
          })
          (λ n. record {
            moves = chunks-moves n (get_chunk_size kv_id m) bin.chunk_ids bin.chunks;
            faults = chunks-Faults n (get_chunk_size kv_id m) bin.chunk_ids bin.chunks;
          })
          (record { moves = λ i v s. refl; faults = λ s. refl })

    -- Two additive pushes with known commands, by keys or by chunks, have the same outcome in
    -- either order, if addition is commutative and associative.
    pub update_comm :
        (cmd cmd' : ℕ) (bin bin' : Bin Val) (s : Store Val)
        → cmd < 4
        → cmd' < 4
        → (update add m p kv_id cmd false bin s >>= update add m p kv_id cmd' false bin')
          ≡ (update add m p kv_id cmd' false bin' s >>= update add m p kv_id cmd false bin)
    update_comm cmd cmd' bin bin' s known known' =
        let g = update add m p kv_id cmd' false bin' in
        let additive = update-IsAdditive cmd' bin' known' in
        update_cases (λ f. (f s >>= g) ≡ (g s >>= f)) cmd bin known
          (λ n. pairs-commute g n bin.keys bin.vals s additive)
          (λ n. chunks-commute g n (get_chunk_size kv_id m) bin.chunk_ids bin.chunks s additive)
          (fault-commute g s additive)
