-- ===== src/Rbac/Trie.antt =====
-- `PermissionTrie` of libs/auth/src/lib/rbac/permission-trie.ts. The children of a node are a
-- JavaScript Map from a segment to a node, in insertion order.
pub mod Grants
use ewu_taks.Base.{
  ℕ, List, [], ◌∷◌, ◌++◌, Option, none, some, Bool, true, false, ◌||◌, if◌then◌else◌, Text,
  text_beq, split, join,
}

mutual
  pub data TrieNode : Type 0 where
    node : Children → Bool → TrieNode

  pub data Children : Type 0 where
    leaf : Children
    child : Text → TrieNode → Children → Children

unfoldable pub create_node : TrieNode
create_node = node leaf false

abbrev pub is_terminal : TrieNode → Bool
is_terminal (node cs terminal) = terminal

abbrev pub children : TrieNode → Children
children (node cs terminal) = cs

-- `children.get(segment)` and `children.set(segment, n)`
abbrev pub get_child : Children → Text → Option TrieNode
get_child leaf k = none
get_child (child j n cs) k = if text_beq j k then some n else get_child cs k

abbrev pub set_child : Children → Text → TrieNode → Children
set_child leaf k n = child k n leaf
set_child (child j m cs) k n = if text_beq j k then child j n cs else child j m (set_child cs k n)

-- The child that the walk goes on with: the one that is there, or a new node.
abbrev pub child_or_new : Option TrieNode → TrieNode
child_or_new none = node leaf false
child_or_new (some n) = n

-- The loop of `insert` over the segments, and the mark on the node where it ends.
unfoldable pub insert_segments : TrieNode → List Text → TrieNode
insert_segments (node cs terminal) [] = node cs true
insert_segments (node cs terminal) (segment ∷ segments) =
    node (set_child cs segment (insert_segments (child_or_new (get_child cs segment)) segments))
      terminal

abbrev pub colon : ℕ
colon = b':'

abbrev pub star : Text
star = b'*' ∷ []

unfoldable pub insert : TrieNode → Text → TrieNode
insert root permission = insert_segments root (split colon permission)

abbrev pub terminal_child : Option TrieNode → Bool
terminal_child none = false
terminal_child (some n) = is_terminal n

abbrev pub matched : (TrieNode → Bool) → Option TrieNode → Bool
matched go none = false
matched go (some n) = go n

-- `match`: the segments that are left stand for the array and the index.
unfoldable pub match_segments : List Text → TrieNode → Bool
match_segments [] n = if terminal_child (get_child (children n) star) then true else is_terminal n
match_segments (segment ∷ segments) n =
    let wildcard = get_child (children n) star in
    let exact = get_child (children n) segment in
    if terminal_child wildcard
    then true
    else if matched (match_segments segments) exact
    then true
    else if matched (match_segments segments) wildcard
    then true
    else false

unfoldable pub has : TrieNode → Text → Bool
has root permission = match_segments (split colon permission) root

unfoldable pub insert_all : TrieNode → List Text → TrieNode
unfolding insert
insert_all root [] = root
insert_all root (perm ∷ permissions) = insert_all (insert root perm) permissions

unfoldable pub from_permissions : List Text → TrieNode
unfolding create_node insert_all
from_permissions permissions = insert_all create_node permissions

-- `collect`, with the results so far in `results`; `path` is the way down to the node.
unfoldable mutual
  pub collect : TrieNode → List Text → List Text → List Text
  collect (node cs terminal) path results =
      collect_children cs path (if terminal then results ++ join colon path ∷ [] else results)

  pub collect_children : Children → List Text → List Text → List Text
  collect_children leaf path results = results
  collect_children (child segment n cs) path results =
      collect_children cs path (collect n (path ++ segment ∷ []) results)

unfoldable pub to_array : TrieNode → List Text
unfolding collect collect_children
to_array root = collect root [] []
