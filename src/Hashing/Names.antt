-- ===== src/Hashing/Names.antt =====
-- backend/internal/hashing/ring.go: the text that a virtual node is hashed from. `strconv.Itoa`
-- and the concatenation of texts are the language's.
use Prim.Native.String.{◌++◌}
use shc.Base.{ℕ, String}
unfoldable pub use shc.Base.Texts.{itoa}

-- nodeID + "#vnode:" + strconv.Itoa(i)
unfoldable pub vnode_key : String → ℕ → String
unfolding itoa
vnode_key node_id i = node_id ++ "#vnode:" ++ itoa i
