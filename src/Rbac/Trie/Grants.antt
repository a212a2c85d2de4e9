-- ===== src/Rbac/Trie/Grants.antt =====
-- What a permission trie answers, against the patterns that were inserted.
use ewu_taks.Base.{
  List, [], ◌∷◌, Option, none, some, Bool, false, ◌||◌, ◌&&◌, if◌then◌else◌, Text, text_beq,
  text_beq_iff, split, any, ◌≡◌, refl, arith, is_empty,
}
use ewu_taks.Rbac.Trie.{
  TrieNode, Children, node, leaf, child, get_child, set_child, child_or_new, insert_segments, colon,
  star, terminal_child, is_terminal, matched, match_segments, has, insert, insert_all,
  from_permissions, create_node,
}

-- A pattern grants the segments: `*` at its end stands for whatever is left, also nothing; `*`
-- before the end for one segment; any other segment for itself.
unfoldable pub grants : List Text → List Text → Bool
grants [] segments = is_empty segments
grants (p ∷ []) [] = text_beq p star
grants (p ∷ []) (s ∷ segments) = text_beq p star || (text_beq p s && is_empty segments)
grants (p ∷ q ∷ ps) [] = false
grants (p ∷ q ∷ ps) (s ∷ segments) = (text_beq p star || text_beq p s) && grants (q ∷ ps) segments

get-set_child :
    (cs : Children) (k j : Text) (n : TrieNode)
    → get_child (set_child cs k n) j ≡ (if text_beq k j then some n else get_child cs j)
get-set_child leaf k j n = refl
get-set_child (child i m cs) k j n =
    ground (arith, get-set_child cs k j n, text_beq_iff i k, text_beq_iff i j, text_beq_iff k j)

match-create_node : (segments : List Text) → match_segments segments (node leaf false) ≡ false
unfolding match_segments
match-create_node [] = refl
match-create_node (s ∷ segments) = refl

is_terminal-insert_segments :
    (n : TrieNode) (ps : List Text)
    → is_terminal (insert_segments n ps) ≡ (is_terminal n || is_empty ps)
unfolding insert_segments
is_terminal-insert_segments (node cs terminal) [] = ground arith
is_terminal-insert_segments (node cs terminal) (p ∷ ps) = ground arith

-- A child that is not there answers as a new node would.
matched-child_or_new :
    (segments : List Text) (o : Option TrieNode)
    → matched (match_segments segments) o ≡ match_segments segments (child_or_new o)
matched-child_or_new segments none = rw match-create_node
matched-child_or_new segments (some n) = refl

terminal_child_lem : (o : Option TrieNode) → terminal_child o ≡ is_terminal (child_or_new o)
terminal_child_lem none = refl
terminal_child_lem (some n) = refl

-- The cases of one insertion, each over the node that the walk starts from.
module _ (cs : Children) (terminal : Bool) (p : Text) where
  abbrev old : TrieNode
  old = child_or_new (get_child cs p)

  match_last_nil :
      match_segments [] (insert_segments (node cs terminal) (p ∷ []))
      ≡ (match_segments [] (node cs terminal) || grants (p ∷ []) [])
  unfolding match_segments insert_segments grants
  match_last_nil = ground (
    arith,
    get-set_child cs p star (insert_segments old []),
    is_terminal-insert_segments old [],
    terminal_child_lem (get_child cs p),
    text_beq_iff p star,
  )

  match_more_nil :
      (q : Text) (ps : List Text)
      → match_segments [] (insert_segments (node cs terminal) (p ∷ q ∷ ps))
        ≡ (match_segments [] (node cs terminal) || grants (p ∷ q ∷ ps) [])
  unfolding match_segments insert_segments grants
  match_more_nil q ps = ground (
    arith,
    get-set_child cs p star (insert_segments old (q ∷ ps)),
    is_terminal-insert_segments old (q ∷ ps),
    terminal_child_lem (get_child cs p),
    text_beq_iff p star,
  )

  match_last_cons :
      (s : Text) (segments : List Text)
      → match_segments segments (insert_segments old [])
        ≡ (match_segments segments old || grants [] segments)
      → match_segments (s ∷ segments) (insert_segments (node cs terminal) (p ∷ []))
        ≡ (match_segments (s ∷ segments) (node cs terminal) || grants (p ∷ []) (s ∷ segments))
  unfolding match_segments insert_segments grants
  match_last_cons s segments ih = ground (
    arith,
    get-set_child cs p star (insert_segments old []),
    get-set_child cs p s (insert_segments old []),
    is_terminal-insert_segments old [],
    terminal_child_lem (get_child cs p),
    matched-child_or_new segments (get_child cs p),
    text_beq_iff p star,
    text_beq_iff p s,
  )

  match_more_cons :
      (q : Text) (ps : List Text) (s : Text) (segments : List Text)
      → match_segments segments (insert_segments old (q ∷ ps))
        ≡ (match_segments segments old || grants (q ∷ ps) segments)
      → match_segments (s ∷ segments) (insert_segments (node cs terminal) (p ∷ q ∷ ps))
        ≡ (match_segments (s ∷ segments) (node cs terminal) || grants (p ∷ q ∷ ps) (s ∷ segments))
  unfolding match_segments insert_segments grants
  match_more_cons q ps s segments ih = ground (
    arith,
    get-set_child cs p star (insert_segments old (q ∷ ps)),
    get-set_child cs p s (insert_segments old (q ∷ ps)),
    is_terminal-insert_segments old (q ∷ ps),
    terminal_child_lem (get_child cs p),
    matched-child_or_new segments (get_child cs p),
    text_beq_iff p star,
    text_beq_iff p s,
  )

match_end :
    (segments : List Text) (n : TrieNode)
    → match_segments segments (insert_segments n [])
      ≡ (match_segments segments n || grants [] segments)
unfolding match_segments insert_segments grants
match_end [] (node cs terminal) = ground arith
match_end (s ∷ segments) (node cs terminal) = ground arith

-- One insertion adds exactly what its pattern grants.
match-insert_segments :
    (ps segments : List Text) (n : TrieNode)
    → match_segments segments (insert_segments n ps)
      ≡ (match_segments segments n || grants ps segments)
match-insert_segments [] segments n = match_end segments n
match-insert_segments (p ∷ []) [] (node cs terminal) = match_last_nil cs terminal p
match-insert_segments (p ∷ q ∷ ps) [] (node cs terminal) = match_more_nil cs terminal p q ps
match-insert_segments (p ∷ []) (s ∷ segments) (node cs terminal) =
    match_last_cons cs terminal p s segments (match_end segments (child_or_new (get_child cs p)))
match-insert_segments (p ∷ q ∷ ps) (s ∷ segments) (node cs terminal) =
    match_more_cons cs terminal p q ps s segments
      (match-insert_segments (q ∷ ps) segments (child_or_new (get_child cs p)))

has-insert_all :
    (root : TrieNode) (permissions : List Text) (required : Text)
    → has (insert_all root permissions) required ≡ (
        has root required
        || any (λ perm. grants (split colon perm) (split colon required)) permissions)
unfolding has insert_all
has-insert_all root [] required = ground arith
has-insert_all root (perm ∷ permissions) required = ground (
  arith,
  has-insert_all (insert root perm) permissions required,
  match-insert_segments (split colon perm) (split colon required) root,
)

-- The trie built from a list of permissions answers yes exactly if one of them, read as a
-- pattern, grants the required permission.
pub has-from_permissions :
    (permissions : List Text) (required : Text)
    → has (from_permissions permissions) required
      ≡ any (λ perm. grants (split colon perm) (split colon required)) permissions
unfolding from_permissions has
has-from_permissions permissions required = ground (
  arith,
  has-insert_all create_node permissions required,
  match-create_node (split colon required),
)
