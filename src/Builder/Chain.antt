-- ===== src/Builder/Chain.antt =====
-- client/transaction.rs: chains of calls on a `TransactionBuilder` and on the `CallBuilder`s in
-- between. A method of `CallBuilder` that leaves it calls `finish` first.
use near_kit_rs.Prelude.{Option, some, List, [], ◌∷◌, Bytes, ◌>>?◌}
use near_kit_rs.Borsh.{Borsh}
use near_kit_rs.Key.{Crypto}
use near_kit_rs.Action.{AccountId}
use near_kit_rs.Builder.Defs.{
  TransactionBuilder, CallBuilder, Method, Setting, set_all, call_builder, finish, apply,
}

module _ (b : Borsh) (c : Crypto) (J E S R A : Type 0) where
  -- One method that returns a `TransactionBuilder`, or a function call with the settings made on it.
  pub data Link : Type 0 where
    method : Method b c J E S R A → Link
    call : (name : Bytes) (settings : List Setting) → Link

  pub data Chain : Type 0 where
    building : TransactionBuilder b c J E S R A → Chain
    calling : CallBuilder b c J E S R A → Chain

  unfoldable pub finished : Chain → TransactionBuilder b c J E S R A
  unfolding finish
  finished (building builder) = builder
  finished (calling calls) = finish b c J E S R A calls

  module _ (derive_account_id : b.StateInit → AccountId) where
    unfoldable pub link_on : Link → TransactionBuilder b c J E S R A → Option Chain
    unfolding apply set_all
    link_on (method m) builder =
        apply b c J E S R A derive_account_id m builder >>? λ builder'. some (building builder')
    link_on (call name settings) builder =
        let calls = call_builder b c J E S R A name builder in
        set_all settings calls.call >>? λ made.
        some (calling (record { builder = builder; call = made }))

    unfoldable pub run : List Link → Chain → Option Chain
    unfolding link_on finished
    run [] chain = some chain
    run (link ∷ links) chain = link_on link (finished chain) >>? run links

    -- A chain that starts at a builder and ends with `finish`, `sign`, `send` or `delegate`.
    unfoldable pub build_by :
        List Link → TransactionBuilder b c J E S R A → Option (TransactionBuilder b c J E S R A)
    unfolding run finished
    build_by links builder = run links (building builder) >>? λ chain. some (finished chain)
