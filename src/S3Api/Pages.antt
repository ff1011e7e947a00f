-- ===== src/S3Api/Pages.antt =====
-- internal/inmems3/s3api/handler.go: the page of a listing that handleBucket answers with
use rdma_demo.Base.{
  ℕ, zero, suc, ◌≤◌, ◌≡◌, refl, List, [], ◌∷◌, length, take, map, arith, ltb, if◌then◌else◌, ap,
}
use rdma_demo.Base.Text.{Str}
use rdma_demo.InmemStore.State.{ListedObject}
use rdma_demo.S3Api.Handler.{list_content, list_page}

length-map-take :
    (n : ℕ) (xs : List ListedObject) → n ≤ length xs → length (map list_content (take n xs)) ≡ n
length-map-take zero xs h = refl
length-map-take (suc n) [] h = absurd (omega arith)
length-map-take (suc n) (x ∷ xs) h = ap suc (length-map-take n xs (omega arith))

length-map : (xs : List ListedObject) → length (map list_content xs) ≡ length xs
length-map [] = refl
length-map (x ∷ xs) = ap suc (length-map xs)

-- A page of a listing is truncated exactly if there are more objects than max-keys; it has max-keys
-- entries if it is truncated and all of them otherwise, and KeyCount is the number of its entries.
pub list_page_lem :
    (bucket prefix : Str) (max_keys : ℕ) (objects : List ListedObject)
    → ((list_page bucket prefix max_keys objects).is_truncated ≡ ltb max_keys (length objects))
      × ((list_page bucket prefix max_keys objects).key_count
          ≡ length (list_page bucket prefix max_keys objects).contents)
      × ((list_page bucket prefix max_keys objects).key_count
          ≡ (if ltb max_keys (length objects) then max_keys else length objects))
      × ((list_page bucket prefix max_keys objects).key_count ≤ max_keys)
unfolding list_page
list_page_lem bucket prefix max_keys objects = (
  refl,
  refl,
  ground (arith, length-map-take max_keys objects, length-map objects),
  ground (arith, length-map-take max_keys objects, length-map objects),
)
