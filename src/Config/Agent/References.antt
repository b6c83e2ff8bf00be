-- ===== src/Config/Agent/References.antt =====
-- How the two maps of references of an agent go together.
use text.Mathlib.TextEquality.{eq_iff}
use volttron_core.Prelude.{
  String, ◌≡◌, refl, true, not, List, [], ◌∷◌, ◌&&◌, ◌||◌, arith, contains, add, discard, union,
  is_empty, Distinct, Distinct-add, contains-add, contains-discard, if◌then◌else◌, string_eq, ◌==◌,
  beq_refl,
}
use volttron_core.Py.Dict.{
  Dict, get_or, insert, remove, update, get_or-insert, get_or-remove, get_or-update,
}
use volttron_core.Py.Exec.{modify, ◌>>=◌}
use volttron_core.Py.Result.{ok}
use volttron_core.Py.Value.{
  Value, Items, Fields, null, bool, int, str, list, dict, nil, cons, end, field,
}
use volttron_core.Config.Links.{link_of, links_of, item_links, field_links, list_unique_links}
use volttron_core.Config.Agent.{
  AgentConfig, add_reverse, add_refs, drop_reference, drop_references, delete_refs, update_refs,
}

Distinct-union : (xs ys : List String) → Distinct xs → Distinct (union xs ys)
unfolding union
Distinct-union xs [] h = h
Distinct-union xs (y ∷ ys) h = Distinct-union (add y xs) ys (Distinct-add y xs h)

link_of-Distinct : (text : String) → Distinct (link_of text)
unfolding link_of contains
link_of-Distinct text = ground arith

mutual
  unfolding links_of item_links field_links

  links_of-Distinct : (v : Value) → Distinct (links_of v)
  links_of-Distinct (str text) = link_of-Distinct text
  links_of-Distinct (list items) = item_links-Distinct items
  links_of-Distinct (dict fields) = field_links-Distinct fields
  links_of-Distinct null = tt
  links_of-Distinct (bool b) = tt
  links_of-Distinct (int n) = tt

  item_links-Distinct : (items : Items) → Distinct (item_links items)
  item_links-Distinct nil = tt
  item_links-Distinct (cons v items) = Distinct-union (links_of v) _ (links_of-Distinct v)

  field_links-Distinct : (fields : Fields) → Distinct (field_links fields)
  field_links-Distinct end = tt
  field_links-Distinct (field k v fields) = Distinct-union (links_of v) _ (links_of-Distinct v)

pub list_unique_links-Distinct : (v : Value) → Distinct (list_unique_links v)
unfolding list_unique_links
list_unique_links-Distinct (list items) = item_links-Distinct items
list_unique_links-Distinct (dict fields) = field_links-Distinct fields
list_unique_links-Distinct (str text) = tt
list_unique_links-Distinct null = tt
list_unique_links-Distinct (bool b) = tt
list_unique_links-Distinct (int n) = tt

abbrev Sets : Type 0
Sets = Dict (List String)

contains-add_reverse :
    (name other ref : String) (refs : List String) (m : Sets)
    → contains other (get_or ref (add_reverse name refs m) [])
      ≡ (contains other (get_or ref m []) || (name == other && contains ref refs))
unfolding add_reverse contains
contains-add_reverse name other ref [] m = ground arith
contains-add_reverse name other ref (r ∷ refs) m = ground (
  arith,
  contains-add_reverse name other ref refs (update r [] (add name) m),
  get_or-update r ref [] (add name) m,
  contains-add name other (get_or r m []),
  eq_iff r ref,
  eq_iff name other,
)

get_or-kept :
    (ref other : String) (left : List String) (m : Sets)
    → get_or other (if is_empty left then remove ref m else insert ref left m) []
      ≡ (if ref == other then left else get_or other m [])
get_or-kept ref other [] m = get_or-remove ref other [] m
get_or-kept ref other (x ∷ xs) m = get_or-insert ref other (x ∷ xs) [] m

-- One reference is taken out.
abbrev dropped : String → String → Sets → Sets
dropped name ref m =
    let left = discard name (get_or ref m []) in
    if is_empty left then remove ref m else insert ref left m

contains-dropped :
    (name other ref r : String) (m : Sets)
    → contains other (get_or r (dropped name ref m) [])
      ≡ (contains other (get_or r m []) && not (name == other && ref == r))
contains-dropped name other ref r m = ground (
  arith,
  get_or-kept ref r (discard name (get_or ref m [])) m,
  contains-discard name other (get_or ref m []),
  eq_iff ref r,
)

drop_references-ok :
    (name : String) (refs : List String) (m : Sets)
    → Distinct refs
    → ((ref : String) → contains ref refs ≡ true → contains name (get_or ref m []) ≡ true)
    → (m' : Sets) × (drop_references name refs m ≡ (ok tt, m'))
      × ((other ref : String)
          → contains other (get_or ref m' [])
            ≡ (contains other (get_or ref m []) && not (name == other && contains ref refs)))
unfolding drop_references drop_reference ◌>>=◌ contains
drop_references-ok name [] m distinct there = (m, refl, λ other ref. ground arith)
drop_references-ok name (r ∷ refs) m (new, distinct) there =
    let (m', e, left) = drop_references-ok name refs (dropped name r m) distinct λ ref member.
      ground (arith, contains-dropped name name r ref m, there ref, eq_iff r ref, new, member) in
    (
      m',
      rw (there r (rw (beq_refl r) refl)) e,
      λ other ref. ground (arith, left other ref, contains-dropped name other r ref m),
    )

-- The referrers of a name are the configurations whose references it is among, and no reference
-- is listed twice.
pub record IsIndexed (s : AgentConfig) : Type 0 where
  pub distinct : (name : String) → Distinct (get_or name s.ref_map [])
  pub exact :
      (name ref : String)
      → contains name (get_or ref s.reverse_ref_map []) ≡ contains ref (get_or name s.ref_map [])

pub delete_refs-ok :
    (name : String) (s : AgentConfig)
    → IsIndexed s
    → (m : Sets) × (delete_refs name s
        ≡ (ok tt, record s { ref_map = remove name s.ref_map; reverse_ref_map = m }))
      × IsIndexed (record s { ref_map = remove name s.ref_map; reverse_ref_map = m })
unfolding delete_refs contains
delete_refs-ok name s h =
    let refs = get_or name s.ref_map [] in
    let (m, e, left) =
      drop_references-ok name refs s.reverse_ref_map (h.distinct name)
        λ ref member. ground (arith, h.exact name ref, member) in
    (
      m,
      rw e refl,
      record {
        distinct = λ other. ground (arith, get_or-remove name other [] s.ref_map, h.distinct other);
        exact = λ other ref. ground (
          arith,
          left other ref,
          h.exact other ref,
          get_or-remove name other [] s.ref_map,
          eq_iff name other,
        );
      },
    )

-- Adding the references of a configuration that has none.
pub add_refs-IsIndexed :
    (name : String) (contents : Value) (s : AgentConfig)
    → IsIndexed s
    → get_or name s.ref_map [] ≡ []
    → IsIndexed (add_refs name contents s).1
unfolding add_refs modify contains
add_refs-IsIndexed name contents s h empty =
    let refs = list_unique_links contents in
    record {
      distinct = λ other. ground (
        arith,
        get_or-insert name other refs [] s.ref_map,
        h.distinct other,
        list_unique_links-Distinct contents,
      );
      exact = λ other ref. ground (
        arith,
        contains-add_reverse name other ref refs s.reverse_ref_map,
        h.exact other ref,
        get_or-insert name other refs [] s.ref_map,
        eq_iff name other,
        empty,
      );
    }

abbrev pub updated : String → Value → Sets → AgentConfig → AgentConfig
updated name contents m s = record s {
  ref_map = insert name (list_unique_links contents) (remove name s.ref_map);
  reverse_ref_map = m;
}

-- `_update_refs` succeeds, and leaves the references of the new contents.
pub update_refs-ok :
    (name : String) (contents : Value) (s : AgentConfig)
    → IsIndexed s
    → (m : Sets) × (update_refs name contents s ≡ (ok tt, updated name contents m s))
      × IsIndexed (updated name contents m s)
unfolding update_refs add_refs modify ◌>>=◌
update_refs-ok name contents s h =
    let (m, e, indexed) = delete_refs-ok name s h in
    let between = record s { ref_map = remove name s.ref_map; reverse_ref_map = m } in
    (
      add_reverse name (list_unique_links contents) m,
      rw e refl,
      add_refs-IsIndexed name contents between indexed
          (rw (get_or-remove name name [] s.ref_map, beq_refl name) refl),
    )
