-- ===== src/Sites/Laws.antt =====
-- crates/management-ui/src/apex_static.rs: nothing outside the document root is served.
-- a component that goes down by one: it names an entry, and neither this directory nor its parent
use mathlib.Core.List.{append-nil, append_assoc}
use surmount_server.Net.{ip_eq}
use surmount_server.Prelude.{
  Bool, Bool-cases, List, Option, [], all, and_then, and_then-chain, ap, arith, false,
  if◌then◌else◌, inl, inr, is_empty, list_eq, nat_eq, none, not, refl, some, sym, true, ℕ, ◌&&◌,
  ◌++◌, ◌==◌, ◌∙◌, ◌∷◌, ◌≡◌, ◌≢◌,
}
use surmount_server.Redirect.Surface.{path_only}
use surmount_server.Sites.{
  Component, FilePath, Files, component_of, components, components_from, cur_dir, join_components,
  locate, normal, parent_dir, path_starts_with, percent_decode_path, relative,
  resolve_apex_static_path, root_dir, with_index,
}
use surmount_server.Text.{Text, contains_char, split, split_from, starts_with, text}
use surmount_server.Text.Laws.{any-append}

abbrev pub is_entry : Text → Bool
is_entry part =
    not (is_empty part)
    && not (part == text ".")
    && not (part == text "..")
    && not (contains_char b'/' part)

-- below a path by entries alone
abbrev pub IsBelow : FilePath → FilePath → Type 0
IsBelow root path = (parts : List Text) × (path ≡ root ++ parts) × (all is_entry parts ≡ true)

abbrev is_safe : Component → Bool
is_safe (normal part) = is_entry part
is_safe _ = true

both_true : (a b : Bool) → a && b ≡ true → (a ≡ true) × (b ≡ true)
both_true a b h = ground arith

join-IsBelow :
    (root : FilePath) (cs : List Component) {path : FilePath}
    → all is_safe cs ≡ true
    → join_components root cs ≡ some path
    → IsBelow root path
unfolding join_components
join-IsBelow root [] h j = ([], cc (append-nil root, j), refl)
join-IsBelow root (normal part ∷ cs) h j =
    let (entry, rest) = both_true (is_entry part) (all is_safe cs) h in
    let (parts, same, entries) = join-IsBelow (root ++ part ∷ []) cs rest j in
    (part ∷ parts, same ∙ append_assoc root (part ∷ []) parts, rw (entry, entries) refl)
join-IsBelow root (cur_dir ∷ cs) h j = join-IsBelow root cs h j
join-IsBelow root (root_dir ∷ cs) h j = absurd cc
join-IsBelow root (parent_dir ∷ cs) h j = absurd cc

abbrev no_slash : Text → Bool
no_slash part = not (contains_char b'/' part)

all-first :
    (p : Text → Bool) (a : Text) (rest : List Text)
    → p a ≡ true
    → all p rest ≡ true
    → all p (a ∷ rest) ≡ true
all-first p a rest h k = rw (h, k) refl

no_slash_empty : no_slash [] ≡ true
unfolding contains_char
no_slash_empty = refl

snoc-no_slash :
    (part : Text) (c : ℕ)
    → no_slash part ≡ true
    → c == b'/' ≡ false
    → no_slash (part ++ c ∷ []) ≡ true
unfolding contains_char
snoc-no_slash part c h e = rw (any-append (λ d. d == b'/') part (c ∷ []), e) (ground (arith, h))

split-no_slash :
    (part s : Text) → no_slash part ≡ true → all no_slash (split_from b'/' part s) ≡ true
unfolding split_from
split-no_slash part [] h = rw h refl
split-no_slash part (c ∷ s) h = elim (Bool-cases (c == b'/')) [
  | inl e ↦
      rw e (all-first no_slash part (split_from b'/' [] s) h (split-no_slash [] s no_slash_empty))
  | inr e ↦ rw e (split-no_slash (part ++ c ∷ []) s (snoc-no_slash part c h e))
]

same_safe : {c d : Component} → some c ≡ some d → is_safe c ≡ true → is_safe d ≡ true
same_safe h safe = cc (h, safe)

component_by :
    (empty dot dots is_first : Bool) (part : Text) {c : Component}
    → is_empty part ≡ empty
    → part == text "." ≡ dot
    → part == text ".." ≡ dots
    → no_slash part ≡ true
    → ◌≡◌ {A = Option Component}
        (if empty
          then none
          else if dot
          then (if is_first then some cur_dir else none)
          else if dots
          then some parent_dir
          else some (normal part))
        (some c)
    → is_safe c ≡ true
component_by true dot dots is_first part p q r h k = absurd cc
component_by false true dots true part p q r h k = same_safe k refl
component_by false true dots false part p q r h k = absurd cc
component_by false false true is_first part p q r h k = same_safe k refl
component_by false false false is_first part p q r h k = same_safe k (rw (p, q, r, h) refl)

component_of-safe :
    (is_first : Bool) (part : Text) {c : Component}
    → no_slash part ≡ true
    → component_of is_first part ≡ some c
    → is_safe c ≡ true
unfolding component_of
component_of-safe is_first part h k =
    component_by (is_empty part) (part == text ".") (part == text "..") is_first part refl refl refl
      h k

step-safe :
    (o : Option Component) (cs : List Component)
    → ((c : Component) → o ≡ some c → is_safe c ≡ true)
    → all is_safe cs ≡ true
    → all is_safe (elim o [ none ↦ cs | some c ↦ c ∷ cs ]) ≡ true
step-safe none cs h k = k
step-safe (some c) cs h k = rw (h c refl, k) refl

components_from-safe :
    (is_first : Bool) (parts : List Text)
    → all no_slash parts ≡ true
    → all is_safe (components_from is_first parts) ≡ true
unfolding components_from
components_from-safe is_first [] h = refl
components_from-safe is_first (part ∷ parts) h =
    let (plain, rest) = both_true (no_slash part) (all no_slash parts) h in
    step-safe (component_of is_first part) (components_from false parts)
      (λ c found. component_of-safe is_first part plain found)
      (components_from-safe false parts rest)

either :
    (b : Bool) (cs ds : List Component)
    → all is_safe cs ≡ true
    → all is_safe ds ≡ true
    → all is_safe (if b then cs else ds) ≡ true
either true cs ds h k = h
either false cs ds h k = k

components-safe : (s : Text) → all is_safe (components s) ≡ true
unfolding components split
components-safe s =
    let parts = split-no_slash [] s no_slash_empty in
    either (starts_with (text "/") s) (root_dir ∷ components_from false (split_from b'/' [] s))
      (components_from true (split_from b'/' [] s))
      (components_from-safe false (split_from b'/' [] s) parts)
      (components_from-safe true (split_from b'/' [] s) parts)

with_index-IsBelow :
    (files : Files) (root joined : FilePath)
    → IsBelow root joined
    → IsBelow root (with_index files joined)
unfolding with_index contains_char
with_index-IsBelow files root joined (parts, same, entries) =
    elim (Bool-cases (files.is_dir joined)) [
      | inl e ↦ rw e (
        parts ++ text "index.html" ∷ [],
        ap (λ (j : FilePath). j ++ text "index.html" ∷ []) same
            ∙ append_assoc root parts (text "index.html" ∷ []),
        entries_snoc parts entries,
      )
      | inr e ↦ rw e (parts, same, entries)
    ]
  where
    entries_snoc :
        (ps : List Text)
        → all is_entry ps ≡ true
        → all is_entry (ps ++ text "index.html" ∷ []) ≡ true
    entries_snoc [] h = refl
    entries_snoc (q ∷ ps) h =
        let (first, rest) = both_true (is_entry q) (all is_entry ps) h in
        rw (first, entries_snoc ps rest) refl

-- what is known of a file that is found
abbrev pub IsServed : Files → FilePath → FilePath → Type 0
IsServed files root served =
    (joined root_canon : FilePath) × IsBelow root joined
    × (files.is_file joined ≡ true)
    × (files.canonicalize joined ≡ some served)
    × (files.canonicalize root ≡ some root_canon)
    × (path_starts_with root_canon served ≡ true)

test-some :
    (b : Bool) {x y : FilePath} → (if b then some x else none) ≡ some y → (b ≡ true) × (x ≡ y)
test-some true h = (refl, cc)
test-some false h = absurd cc

none-some : {x : FilePath} → ◌≢◌ {A = Option FilePath} none (some x)
none-some h = cc

locate_by :
    (files : Files) (root joined : FilePath) (is_file : Bool) {served : FilePath}
    → IsBelow root joined
    → files.is_file (with_index files joined) ≡ is_file
    → (if not is_file
        then none
        else and_then (files.canonicalize root) (λ root_canon.
          and_then (files.canonicalize (with_index files joined)) (λ file_canon.
            if path_starts_with root_canon file_canon then some file_canon else none)))
      ≡ some served
    → IsServed files root served
locate_by files root joined false below p h = absurd (none-some h)
locate_by files root joined true below p h =
    let (root_canon, real_root, h1) = and_then-chain (files.canonicalize root) _ h in
    let (file_canon, real, h2) =
      and_then-chain (files.canonicalize (with_index files joined)) _ h1 in
    let (under, same) = test-some (path_starts_with root_canon file_canon) h2 in
    (
      with_index files joined,
      root_canon,
      with_index-IsBelow files root joined below,
      p,
      real ∙ ap some same,
      real_root,
      ap (path_starts_with root_canon) (sym same) ∙ under,
    )

locate-IsServed :
    (files : Files) (root joined : FilePath) {served : FilePath}
    → IsBelow root joined
    → locate files root joined ≡ some served
    → IsServed files root served
unfolding locate
locate-IsServed files root joined below h =
    locate_by files root joined (files.is_file (with_index files joined)) below refl h

-- A path that a request resolves to is the canonical path of a file that lies below the document
-- root as it is written, with no step upwards, and it lies below the root's canonical path too.
pub resolve_apex_static_path-IsServed :
    (files : Files) (root : FilePath) (req_path : Text) {served : FilePath}
    → resolve_apex_static_path files root req_path ≡ some served
    → IsServed files root served
unfolding resolve_apex_static_path
resolve_apex_static_path-IsServed files root req_path h =
    let (decoded, d, h1) = and_then-chain (percent_decode_path files (path_only req_path)) _ h in
    let (rel, r, h2) = and_then-chain (relative decoded) _ h1 in
    let (joined, j, h3) = and_then-chain (join_components root (components rel)) _ h2 in
    locate-IsServed files root joined (join-IsBelow root (components rel) (components-safe rel) j)
      h3
