-- ===== src/Tests/Data.antt =====
-- Messages, and their bytes cut into parts.
use barbacoa_server_lib.Prelude.{ℕ, ◌≡◌, refl, List, [], ◌∷◌, codes, arith, lt_wf, dec_lt}
use barbacoa_server_lib.Network.IntegerBuilder.Pack.{pack}
use barbacoa_server_lib.Network.MsgBuilder.Delivery.{AllFit, wire}
use barbacoa_server_lib.Network.Manager.Stream.{concat}

abbrev pub two_messages : List (List ℕ)
two_messages = codes "hi" ∷ codes "you" ∷ []

pub two_messages-AllFit : AllFit 100 two_messages
two_messages-AllFit = ((omega arith, omega arith), ((omega arith, omega arith), tt))

-- The bytes, cut within the first message.
abbrev pub first_part : List ℕ
first_part = 2 ∷ b'h' ∷ []

abbrev pub other_parts : List (List ℕ)
other_parts = (b'i' ∷ 3 ∷ []) ∷ codes "you" ∷ []

pub cut_wire : concat (first_part ∷ other_parts) ≡ wire two_messages
unfolding pack lt_wf dec_lt
cut_wire = refl
