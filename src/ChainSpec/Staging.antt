-- ===== src/ChainSpec/Staging.antt =====
-- The staging test network (cli/src/chain_spec.rs).
use akropolis_os_chain_node.Common.{ℕ, false, List, [], ◌∷◌, some}
use akropolis_os_chain_node.ChainSpec.{GenesisConfig, Authority, Keys, testnet_genesis}

abbrev pub staging_authorities : List Authority
staging_authorities =
    record {
      stash = 0x9c7a2ee14e565db0c69f78c7b4cd839fbf52b607d867e9e9c5a79042898a0d12;
      controller = 0x781ead1e2fa9ccb74b44c19d29cb2a7a4b5be3972927ae98cd3877523976a276;
      grandpa = 0x9becad03e6dcac03cee07edebca5475314861492cdfc96a2144a67bbe9699332;
      babe = 0x6e7e4eb42cbd2e0ab4cae8708ce5509580b8c04d11f6758dbf686d50fe9f9106;
      im_online = 0x6e7e4eb42cbd2e0ab4cae8708ce5509580b8c04d11f6758dbf686d50fe9f9106;
      authority_discovery = 0x6e7e4eb42cbd2e0ab4cae8708ce5509580b8c04d11f6758dbf686d50fe9f9106;
    }
    ∷ record {
      stash = 0x68655684472b743e456907b398d3a44c113f189e56d1bbfd55e889e295dfde78;
      controller = 0xc8dc79e36b29395413399edaec3e20fcca7205fb19776ed8ddb25d6f427ec40e;
      grandpa = 0x7932cff431e748892fa48e10c63c17d30f80ca42e4de3921e641249cd7fa3c2f;
      babe = 0x482dbd7297a39fa145c570552249c2ca9dd47e281f0c500c971b59c9dcdcd82e;
      im_online = 0x482dbd7297a39fa145c570552249c2ca9dd47e281f0c500c971b59c9dcdcd82e;
      authority_discovery = 0x482dbd7297a39fa145c570552249c2ca9dd47e281f0c500c971b59c9dcdcd82e;
    }
    ∷ record {
      stash = 0x547ff0ab649283a7ae01dbc2eb73932eba2fb09075e9485ff369082a2ff38d65;
      controller = 0x9e42241d7cd91d001773b0b616d523dd80e13c6c2cab860b1234ef1b9ffc1526;
      grandpa = 0x5633b70b80a6c8bb16270f82cca6d56b27ed7b76c8fd5af2986a25a4788ce440;
      babe = 0x482a3389a6cf42d8ed83888cfd920fec738ea30f97e44699ada7323f08c3380a;
      im_online = 0x482a3389a6cf42d8ed83888cfd920fec738ea30f97e44699ada7323f08c3380a;
      authority_discovery = 0x482a3389a6cf42d8ed83888cfd920fec738ea30f97e44699ada7323f08c3380a;
    }
    ∷ record {
      stash = 0xf26cdb14b5aec7b2789fd5ca80f979cef3761897ae1f37ffb3e154cbcc1c2663;
      controller = 0x66bc1e5d275da50b72b15de072a2468a5ad414919ca9054d2695767cf650012f;
      grandpa = 0x3919132b851ef0fd2dae42a7e734fe547af5a6b809006100f48944d7fae8e8ef;
      babe = 0x00299981a2b92f878baaf5dbeba5c18d4e70f2a1fcd9c61b32ea18daf38f4378;
      im_online = 0x00299981a2b92f878baaf5dbeba5c18d4e70f2a1fcd9c61b32ea18daf38f4378;
      authority_discovery = 0x00299981a2b92f878baaf5dbeba5c18d4e70f2a1fcd9c61b32ea18daf38f4378;
    }
    ∷ []

abbrev pub staging_root_key : ℕ
staging_root_key = 0x9ee5e5bdc0ec239eb164f865ecc345ce4c88e76ee002e0f7e318097347471809

abbrev pub akropolisos_staging_genesis : Keys → GenesisConfig
akropolisos_staging_genesis keys =
    testnet_genesis keys staging_authorities staging_root_key (some (staging_root_key ∷ [])) false
