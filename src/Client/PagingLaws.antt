-- ===== src/Client/PagingLaws.antt =====
-- Following the pages of a node gives all items of one block, whatever happens between the requests.
use near_kit_rs.Prelude.{
  ℕ, zero, suc, ◌+◌, ◌<◌, ◌≤◌, ◌≡◌, ◌⊎◌, inl, inr, refl, sym, ap, ◌∙◌, Option, none, some, List,
  ◌++◌, append_assoc, length, length-append, Bytes, Result, ok, err, arith,
}
use near_kit_rs.Client.Paging.{
  Page, Pages, BlockReference, hash, Listing, follow, listed?, from_first, page_limit,
  view_state_all, view_access_key_list, default_view_access_keys_page_size,
}

module _ (E V K : Type 0) where
  -- The items that a node holds at a block behind a cursor.
  abbrev pub Contents : Type 0
  Contents = (block_hash : Bytes) → Option K → List V

  -- A page of what is behind a cursor: all of it, or a first part with a cursor to the rest.
  abbrev pub IsPageOf : Contents → Option K → Page V K → Type 0
  IsPageOf contents after page =
      ((page.last_key ≡ none) × (contents page.block_hash after ≡ page.values))
      ⊎ ((k : K) × (page.last_key ≡ some k)
          × (0 < length page.values)
          × (contents page.block_hash after ≡ page.values ++ contents page.block_hash (some k)))

  abbrev pub Resolves : BlockReference → Bytes → Type 0
  Resolves (hash h) h' = h' ≡ h
  Resolves _ _ = Unit

  -- A node that answers every request at a limit with a page of what it holds at the block asked
  -- for. Which block a finality or height means, and how long pages are, may change at any time.
  abbrev pub Serves : Contents → (limit : ℕ) → Pages E V K → Type 0
  Serves contents limit pages =
      (request : ℕ) (after : Option K) (block : BlockReference)
      → (page : Page V K) × (pages request after limit block ≡ ok page)
        × Resolves block page.block_hash
        × IsPageOf contents after page

  module _ (contents : Contents) (limit : ℕ) (pages : Pages E V K)
      (serves : Serves contents limit pages) (h : Bytes) where
    follow_lem :
        (rounds request : ℕ) (k : K) (values : List V)
        → length (contents h (some k)) < rounds
        → follow E V K pages limit (hash h) rounds request (some k) values
          ≡ some (ok (values ++ contents h (some k)))
    unfolding follow
    follow_lem zero request k values enough = absurd (omega arith)
    follow_lem (suc rounds) request k values enough =
        let (page, answered, same, rest) = serves request (some k) (hash h) in
        let at_h : (after : Option K) → contents page.block_hash after ≡ contents h after =
          λ after. ap (λ x. contents x after) same in
        rw (answered) (elim rest [
          | inl (last, all) ↦
              let all' : contents h (some k) ≡ page.values = sym (at_h (some k)) ∙ all in
              rw (last) (ap (λ xs. some (ok (values ++ xs))) (sym all'))
          | inr (k', more, some_values, all) ↦
              let all' : contents h (some k) ≡ page.values ++ contents h (some k') =
                sym (at_h (some k)) ∙ all ∙ ap (page.values ++◌) (at_h (some k')) in
              let longer : length (contents h (some k))
                  ≡ length page.values + length (contents h (some k')) =
                ap length all' ∙ length-append page.values (contents h (some k')) in
              rw (more) (
                follow_lem rounds (request + 1) k' (values ++ page.values) (omega arith)
                ∙ ap (λ xs. some (ok xs))
                    (append_assoc values page.values (contents h (some k'))
                      ∙ ap (values ++◌) (sym all')))
        ])

  abbrev listing : Page V K → List V → Option (Result E (Listing E V K))
  listing first values = some (
      ok (record {
        values = values;
        block_height = first.block_height;
        block_hash = first.block_hash;
      }))

  from_first_lem :
      (contents : Contents) (limit : ℕ) (pages : Pages E V K)
      → Serves contents limit pages
      → (rounds : ℕ) (first : Page V K) → IsPageOf contents none first
      → length (contents first.block_hash none) ≤ rounds
      → from_first E V K pages limit rounds (ok first)
        ≡ listing first (contents first.block_hash none)
  unfolding follow
  from_first_lem contents limit pages serves rounds first (inl (last, all)) enough =
      rw (last) (ap (listing first) (sym all))
  from_first_lem contents limit pages serves rounds first (inr (k, more, some_values, all)) enough =
      let longer : length (contents first.block_hash none)
          ≡ length first.values + length (contents first.block_hash (some k)) =
        ap length all ∙ length-append first.values (contents first.block_hash (some k)) in
      rw (more) (
        ap (listed? E V K first) (
          follow_lem contents limit pages serves first.block_hash rounds 1 k first.values
            (omega arith))
        ∙ ap (listing first) (sym all))

  -- What a listing of a block holds: all items of it, read at the block that the reference meant.
  abbrev pub IsComplete : Contents → BlockReference → Option (Result E (Listing E V K)) → Type 0
  IsComplete contents block none = ⊥
  IsComplete contents block (some (err e)) = ⊥
  IsComplete contents block (some (ok all)) =
      (all.values ≡ contents all.block_hash none) × Resolves block all.block_hash

  complete :
      (contents : Contents) (limit : ℕ) (pages : Pages E V K)
      → Serves contents limit pages
      → (rounds : ℕ) (block : BlockReference)
      → ((block_hash : Bytes) → length (contents block_hash none) ≤ rounds)
      → IsComplete contents block (from_first E V K pages limit rounds (pages 0 none limit block))
  complete contents limit pages serves rounds block enough =
      let (first, answered, at, rest) = serves 0 none block in
      rw
        (
          answered,
          from_first_lem contents limit pages serves rounds first rest (enough first.block_hash),
        )
        (refl, at)

  -- Where the node answers each request with a page of what it holds at the block asked for,
  -- whatever length its pages have and whatever block a finality or height means at that time,
  -- `view_state_all` with as many rounds as a block has items ends, and returns all items of one
  -- block in order: the block that was asked for, if it was asked for by its hash.
  pub view_state_all-IsComplete :
      (contents : Contents) (page_size : ℕ) (pages : Pages E V K)
      → Serves contents (page_limit E V K page_size) pages
      → (rounds : ℕ) (block : BlockReference)
      → ((block_hash : Bytes) → length (contents block_hash none) ≤ rounds)
      → IsComplete contents block (view_state_all E V K pages rounds page_size block)
  unfolding view_state_all
  view_state_all-IsComplete contents page_size pages serves =
      complete contents (page_limit E V K page_size) pages serves

  -- Of pages that are those of contents at each block, at the page size of `view_access_key_list`,
  -- it returns all the entries at the hash of one block, and that block is the one it was asked for
  -- or the one that name resolved to, when the rounds are as many as the contents are long.
  pub view_access_key_list-IsComplete :
      (contents : Contents) (pages : Pages E V K)
      → Serves contents (default_view_access_keys_page_size E V K) pages
      → (rounds : ℕ) (block : BlockReference)
      → ((block_hash : Bytes) → length (contents block_hash none) ≤ rounds)
      → IsComplete contents block (view_access_key_list E V K pages rounds block)
  unfolding view_access_key_list
  view_access_key_list-IsComplete contents pages serves =
      complete contents (default_view_access_keys_page_size E V K) pages serves
