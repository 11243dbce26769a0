-- ===== src/Finality/Client/Head.antt =====
-- The head that the client reports, and what the client says when it is asked for that head.
use frost_substrate.Prelude.{
  sym, inr, inl, ap, ℕ, Bool-cases, ◌∙◌, ◌≡◌, ◌≤◌, refl, true, ◌==◌, min, arith, ok, map_err-eq-ok,
  length,
}
use frost_substrate.External.Chain.{Chain, Header}
use frost_substrate.External.Frost.{Frost, BlockRef}
use frost_substrate.External.Grandpa.{Grandpa}
use frost_substrate.Finality.Config.{ChainConfig, get_chain_id}
use frost_substrate.Finality.Client.Decisions.{HasHeader, require_header_iff, verify_block_hash_iff}
use frost_substrate.Finality.Client.Justification.{u64_max}
use frost_substrate.Finality.Client.Queries.{
  head_block, get_chain_head, get_block, verify_block_hash,
}

module _ {C : Type 0} (frost : Frost C) (chain : Chain) (config : ChainConfig) where
  -- A block reference to the best block, under a number.
  abbrev best_ref : ℕ → BlockRef C
  best_ref n = record {
    hash = chain.info.best_hash;
    number = n;
    chain_id = frost.chain_id_new (get_chain_id config);
  }

  head_block-eq-ok :
      (head : BlockRef C)
      → head_block frost chain config ≡ ok head
      → head ≡ best_ref (min chain.info.best_number u64_max)
  unfolding head_block
  head_block-eq-ok head e = elim (Bool-cases (length chain.info.best_hash == 32)) [
    | inl sized ↦ cc (rw sized at e)
    | inr unsized ↦ cc (rw unsized at e)
  ]

module _ {C V : Type 0} (g : Grandpa V) (frost : Frost C) (chain : Chain) where
  -- If the chain has the header of its best block, whose number fits both number types, then the head that
  -- the client reports is the best block, under the configured chain id; the client confirms it when
  -- asked for its hash; and asked for the block, it answers that hash and the number of the header.
  pub get_chain_head-verify_block_hash :
      (config : ChainConfig) (head : BlockRef C) (header : Header)
      → get_chain_head frost chain config ≡ ok head
      → HasHeader chain chain.info.best_hash header
      → header.number ≡ chain.info.best_number
      → chain.info.best_number ≤ g.max_number
      → chain.info.best_number ≤ u64_max
      → (head ≡ record {
        hash = chain.info.best_hash;
        number = chain.info.best_number;
        chain_id = frost.chain_id_new (get_chain_id config);
      })
        × (verify_block_hash g frost chain head ≡ ok true)
        × (get_block frost chain head ≡ ok (record { hash = head.hash; number = header.number }))
  unfolding get_chain_head get_block
  get_chain_head-verify_block_hash config head header reported found best fits fits64 =
      let made = map_err-eq-ok _ (head_block frost chain config) reported in
      let number : min chain.info.best_number u64_max ≡ chain.info.best_number = omega arith in
      let exact =
        head_block-eq-ok frost chain config head made ∙ ap (best_ref frost chain config) number in
      rw exact (
        refl,
        (verify_block_hash_iff g frost chain (best_ref frost chain config chain.info.best_number)).1
            (header, found, omega arith),
        rw ((require_header_iff frost chain chain.info.best_hash header).1 found)
            (ap (λ n. ok (record { hash = chain.info.best_hash; number = n })) (sym best)),
      )
