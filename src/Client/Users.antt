-- ===== src/Client/Users.antt =====
-- lib/users.ts of src/client: the five demo users.
use eutxo_l2_interop.Base.{ℕ, String, Bool, ◌==◌, List, [], ◌∷◌, map}

pub data UserName : Type 0 where
  alice bob charlie ida jon : UserName

abbrev pub user_text : UserName → String
user_text alice = "alice"
user_text bob = "bob"
user_text charlie = "charlie"
user_text ida = "ida"
user_text jon = "jon"

-- `===` on user names.
abbrev pub user_index : UserName → ℕ
user_index alice = 0
user_index bob = 1
user_index charlie = 2
user_index ida = 3
user_index jon = 4

abbrev pub same_user : UserName → UserName → Bool
same_user u v = user_index u == user_index v

pub record User : Type 0 where
  pub name : UserName
  pub address : String
  pub vk_hash : String
  pub sk_hash : String

unfoldable pub get_user : UserName → User
get_user alice = record {
  name = alice;
  address = "addr_test1vzqdn97wxxuem2ukec6fswslmknuj2zlcwhuz2wfqvkdcgq9235ym";
  vk_hash = "80d997ce31b99dab96ce34983a1fdda7c9285fc3afc129c9032cdc20";
  sk_hash = "ed25519_sk1y3gjpn0nx0uw56g3fg4n7pduhsx4er5ysm9ffspqvg74ej5z9czqpvcjja";
}
get_user bob = record {
  name = bob;
  address = "addr_test1vz5hhyn6ecl66a2ca3cwfnwu8ddnp24hakfq2k37rhk28ysk8g0wz";
  vk_hash = "a97b927ace3fad7558ec70e4cddc3b5b30aab7ed92055a3e1deca392";
  sk_hash = "ed25519_sk1h5y66nuce5grupv6kck30f48mystzmvlpmknad4h05723asacytsmxxw96";
}
get_user charlie = record {
  name = charlie;
  address = "addr_test1vpewv3suua9003u2tav82nl2gx0atkgwdjanh2srxln4z4qahfpfm";
  vk_hash = "72e6461ce74af7c78a5f58754fea419fd5d90e6cbb3baa0337e75154";
  sk_hash = "ed25519_sk19elca94kqmsusrp0063977k7yh0hkvt7t7dx5rz43suwjl44z3ws3dvqkn";
}
get_user ida = record {
  name = ida;
  address = "addr_test1vruw26lgqedpwgfh0gu2qatjr90nccd4an54ew9xgr6v90g7uyt4z";
  vk_hash = "f8e56be8065a1721377a38a07572195f3c61b5ece95cb8a640f4c2bd";
  sk_hash = "ed25519_sk1emahhlsxupxwars8p6gtvvl5axchwn9mceymu9uzp9wur0dd4lnquszya6";
}
get_user jon = record {
  name = jon;
  address = "addr_test1vp9n0x2heemntaey6ycygk3wvuxtll2lqpsxc4mjxy34czqpcztw7";
  vk_hash = "4b379957ce7735f724d130445a2e670cbffd5f00606c577231235c08";
  sk_hash = "ed25519_sk1y5qmgv4yc6ge2t6uc380y8774j9hqg7fd7a6hmdatngt6ydnarusg7yyr7";
}

-- `Object.values(users)`, in the order of the table.
unfoldable pub get_all_users : List User
unfolding get_user
get_all_users = map get_user (alice ∷ bob ∷ ida ∷ charlie ∷ jon ∷ [])
