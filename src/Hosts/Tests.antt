-- ===== src/Hosts/Tests.antt =====
-- Runs of `locality` of planet_express/core/hosts.py, and a witness.
use planet_express.Prelude.{◌≡◌, refl, none, some, List, [], ◌∷◌, ltb}
use planet_express.Store.Rows.{Text}
use planet_express.Hosts.{System, locality, names}
use planet_express.Hosts.Clear.{IsClear, locality-IsClear}

abbrev local_names : List Text
local_names = 1 ∷ 2 ∷ 3 ∷ 4 ∷ 5 ∷ 5 ∷ 0 ∷ []

abbrev systems : List System
systems = (21, 1 ∷ 9 ∷ []) ∷ (22, 1 ∷ 2 ∷ 3 ∷ 4 ∷ []) ∷ (0, 1 ∷ 2 ∷ 3 ∷ 4 ∷ 5 ∷ []) ∷ []

finds_this_host : locality ltb local_names systems ≡ some 22
unfolding locality
finds_this_host = refl

-- A second system with two of the names leaves it open.
too_close : locality ltb local_names ((23, 1 ∷ 2 ∷ []) ∷ systems) ≡ none
unfolding locality
too_close = refl

locality-IsClear_example : IsClear (names local_names) systems 22
locality-IsClear_example = locality-IsClear ltb local_names systems 22 finds_this_host
