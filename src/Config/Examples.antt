-- ===== src/Config/Examples.antt =====
-- A list of two peers.
use shc.Base.{◌≡◌, refl, [], ◌∷◌}
use shc.Base.Texts.{trim_space}
use shc.Config.{read_peers}
use shc.Config.Peers.{lacks, IsPlain, join_peers, read_peers-join_peers}

first-IsPlain : IsPlain "a=http://a"
unfolding lacks trim_space
first-IsPlain = record { no_comma = refl; trimmed = refl; not_empty = refl }

second-IsPlain : IsPlain "http://b"
unfolding lacks trim_space
second-IsPlain = record { no_comma = refl; trimmed = refl; not_empty = refl }

read_peers-join_peers_example :
    read_peers (join_peers ("a=http://a" ∷ "http://b" ∷ [])) ≡ "a=http://a" ∷ "http://b" ∷ []
read_peers-join_peers_example =
    read_peers-join_peers ("a=http://a" ∷ "http://b" ∷ []) (first-IsPlain, (second-IsPlain, tt))
