-- ===== src/Client/Paging.antt =====
-- client/rpc.rs: the queries that follow a node's pages, `view_state_all` and
-- `view_access_key_list`, and the block references of types/block_reference.rs. The node is an
-- argument: what it answers to each request, which may differ from request to request.
use near_kit_rs.Prelude.{
  ℕ, zero, suc, ◌+◌, Option, none, some, List, ◌++◌, Bytes, Result, ok, err, ltb, if◌then◌else◌,
}

pub data SyncCheckpoint : Type 0 where
  genesis earliest_available : SyncCheckpoint

pub data Finality : Type 0 where
  optimistic near_final final : Finality

pub data BlockReference : Type 0 where
  finality : Finality → BlockReference
  height : ℕ → BlockReference
  hash : Bytes → BlockReference
  sync_checkpoint : SyncCheckpoint → BlockReference

-- A page: `ViewStateResult` and `AccessKeyListView`, with items `V` and cursors `K`.
pub record Page (V K : Type 0) : Type 0 where
  pub values : List V
  pub last_key : Option K
  pub block_height : ℕ
  pub block_hash : Bytes

module _ (E V K : Type 0) where
  -- What the node answers to its request with the given number: `view_state` for a prefix, or
  -- `view_access_key_list_page` for an account.
  abbrev pub Pages : Type 0
  Pages = (request : ℕ) (after : Option K) (limit : ℕ) → BlockReference → Result E (Page V K)

  -- `ViewStateAllResult`, and an `AccessKeyListView` whose `last_key` is `None`.
  pub record Listing : Type 0 where
    pub values : List V
    pub block_height : ℕ
    pub block_hash : Bytes

  -- What the rest of the loop makes of a cursor and of the items so far.
  abbrev Rest : Type 0
  Rest = (cursor : Option K) (values : List V) → Option (Result E (List V))

  abbrev pub extended : Rest → (values : List V) → Result E (Page V K) → Option (Result E (List V))
  extended rest values (err e) = some (err e)
  extended rest values (ok page) = rest page.last_key (values ++ page.values)

  -- `while let Some(cursor) = …`; `none` says that the rounds ran out, which no program does.
  unfoldable pub follow : Pages → (limit : ℕ) (pinned : BlockReference) (rounds request : ℕ) → Rest
  follow pages limit pinned rounds request none values = some (ok values)
  follow pages limit pinned zero request (some cursor) values = none
  follow pages limit pinned (suc rounds) request (some cursor) values =
      extended (follow pages limit pinned rounds (request + 1)) values
        (pages request (some cursor) limit pinned)

  abbrev pub listed : Page V K → Result E (List V) → Result E Listing
  listed first (err e) = err e
  listed first (ok values) =
      ok (record {
        values = values;
        block_height = first.block_height;
        block_hash = first.block_hash;
      })

  abbrev pub listed? : Page V K → Option (Result E (List V)) → Option (Result E Listing)
  listed? first none = none
  listed? first (some r) = some (listed first r)

  -- The first page is read at the given block, and the others at the block that it was read at.
  abbrev pub from_first :
      Pages → (limit rounds : ℕ) → Result E (Page V K) → Option (Result E Listing)
  from_first pages limit rounds (err e) = some (err e)
  from_first pages limit rounds (ok first) =
      listed? first
        (follow pages limit (hash first.block_hash) rounds 1 first.last_key first.values)

  abbrev pub default_view_state_page_size : ℕ
  default_view_state_page_size = 10_000

  abbrev pub default_view_access_keys_page_size : ℕ
  default_view_access_keys_page_size = 100

  abbrev pub page_limit : (page_size : ℕ) → ℕ
  page_limit page_size = if ltb 0 page_size then page_size else default_view_state_page_size

  unfoldable pub view_state_all :
      Pages → (rounds page_size : ℕ) → BlockReference → Option (Result E Listing)
  unfolding follow
  view_state_all pages rounds page_size block =
      let limit = page_limit page_size in from_first pages limit rounds (pages 0 none limit block)

  unfoldable pub view_access_key_list :
      Pages → (rounds : ℕ) → BlockReference → Option (Result E Listing)
  unfolding follow
  view_access_key_list pages rounds block =
      from_first pages default_view_access_keys_page_size rounds
        (pages 0 none default_view_access_keys_page_size block)
