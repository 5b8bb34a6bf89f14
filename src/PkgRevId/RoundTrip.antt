-- ===== src/PkgRevId/RoundTrip.antt =====
-- What the parsers of apis/pkgrevid/pkgrevid.go read back from its prints.
use mathlib.Core.List.{flatten}
use pkgserver.Prelude.{
  suc, ◌+◌, ◌-◌, ◌≡◌, ◌≢◌, refl, sym, ap, ◌∙◌, Bool, true, false, List, [], ◌∷◌, ◌++◌, arith, Str,
  nat_eq, if◌then◌else◌, length, get_or, take, slice, ok, ltb, All-append, length-append,
  take-length_append, get_or-append,
}
use pkgserver.Go.Strings.{
  Lacks, split, intercalate, split-intercalate, replace_all_back, replace_all-Lacks,
}
use pkgserver.Go.Path.{
  slash, join, IsSegment, AreSegments, join-segments, join-AreSegments, no_slashes,
}
use pkgserver.PkgRevId.{
  PackageRevId, dot, colon, pkg_target_catalog, parse_pkg_rev, parse_tag, parse_branch,
  pkg_rev_string, get_repo_name, tag, branch, realm_to_name,
}

-- The fields that the dotted name of a package revision holds can be told apart in it.
pub record IsPrintable (r : PackageRevId) : Type 0 where
  pub target : Lacks dot r.target
  pub repository : Lacks dot r.repository
  pub realm : Lacks dot r.realm
  pub colons : Lacks colon r.realm
  pub pkg : Lacks dot r.pkg
  pub workspace : Lacks dot r.workspace

module _ (r : PackageRevId) (h : IsPrintable r) where
  split-pkg_rev_string :
      split dot (pkg_rev_string r)
      ≡ r.target ∷ r.repository ∷ realm_to_name r.realm ∷ r.pkg ∷ r.workspace ∷ []
  unfolding pkg_rev_string realm_to_name
  split-pkg_rev_string =
      split-intercalate dot r.target
        (r.repository ∷ realm_to_name r.realm ∷ r.pkg ∷ r.workspace ∷ [])
        (
          h.target,
          (
            h.repository,
            (
              replace_all-Lacks slash colon dot r.realm (omega arith) h.realm,
              (h.pkg, (h.workspace, tt)),
            ),
          ),
        )

  -- Where no field holds a dot and the realm holds no colon, the name of a package revision is
  -- parsed back to its identity, without the revision, which the name does not hold.
  pub parse_pkg_rev-pkg_rev_string :
      parse_pkg_rev (pkg_rev_string r) ≡ ok (record r { revision = [] })
  unfolding parse_pkg_rev
  parse_pkg_rev-pkg_rev_string = rw split-pkg_rev_string (
      unfold realm_to_name in
      ap (λ realm. ok (record r { realm = realm; revision = [] }))
        (replace_all_back slash colon r.realm h.colons))

  -- Where no field holds a dot and the realm holds no colon, the repository is read back from the
  -- name of a package revision.
  pub get_repo_name-pkg_rev_string : get_repo_name (pkg_rev_string r) ≡ ok r.repository
  unfolding get_repo_name
  get_repo_name-pkg_rev_string = rw split-pkg_rev_string

-- The last two of at least two parts, and those before them.
module _ (xs : List Str) (p v : Str) where
  abbrev parts : List Str
  parts = xs ++ (p ∷ v ∷ [])

  length-parts : length parts ≡ length xs + 2
  length-parts = length-append xs (p ∷ v ∷ [])

  front_parts : slice parts 0 (length parts - 2) ≡ xs
  front_parts =
      ap (λ n. take n parts) (omega (arith, length-parts)) ∙ take-length_append xs (p ∷ v ∷ [])

  next_to_last : get_or parts (length parts - 2) [] ≡ p
  next_to_last =
      ap (λ n. get_or parts n []) {y = length xs + 0} (omega (arith, length-parts))
      ∙ get_or-append xs (p ∷ v ∷ []) 0 []

  last : get_or parts (length parts - 1) [] ≡ v
  last =
      ap (λ n. get_or parts n []) {y = length xs + 1} (omega (arith, length-parts))
      ∙ get_or-append xs (p ∷ v ∷ []) 1 []

  -- The parts behind a first one.
  inner_parts : (t : Str) → slice (t ∷ parts) 1 (suc (length parts) - 2) ≡ xs
  inner_parts t =
      ap (λ n. take n parts) (omega (arith, length-parts)) ∙ take-length_append xs (p ∷ v ∷ [])

  enough_parts : ltb (length parts) 2 ≡ false
  enough_parts = ground (arith, length-parts)

  -- The parsers on a text that is cut into these parts.
  module _ (s : Str) (cut : split slash s ≡ parts) where
    parse_tag_catalog :
        parse_tag s true
        ≡ ok (record {
          target = pkg_target_catalog;
          repository = [];
          realm = join xs;
          pkg = p;
          revision = v;
          workspace = [];
        })
    unfolding parse_tag
    parse_tag_catalog =
        rw (cut, enough_parts)
          (λ i. ok (record {
            target = pkg_target_catalog;
            repository = [];
            realm = join (front_parts i);
            pkg = next_to_last i;
            revision = last i;
            workspace = [];
          }))

    parse_branch_catalog :
        parse_branch s true
        ≡ ok (record {
          target = pkg_target_catalog;
          repository = [];
          realm = join xs;
          pkg = p;
          revision = [];
          workspace = v;
        })
    unfolding parse_branch
    parse_branch_catalog =
        rw (cut, enough_parts)
          (λ i. ok (record {
            target = pkg_target_catalog;
            repository = [];
            realm = join (front_parts i);
            pkg = next_to_last i;
            revision = [];
            workspace = last i;
          }))

module _ (t : Str) (xs : List Str) (p v s : Str) (cut : split slash s ≡ t ∷ parts xs p v) where
  enough_inner : ltb (suc (length (parts xs p v))) 3 ≡ false
  enough_inner = ground (arith, length-parts xs p v)

  parse_tag_target :
      parse_tag s false
      ≡ ok (record {
        target = t;
        repository = [];
        realm = join xs;
        pkg = p;
        revision = v;
        workspace = [];
      })
  unfolding parse_tag
  parse_tag_target =
      rw (cut, enough_inner)
        (λ i. ok (record {
          target = t;
          repository = [];
          realm = join (inner_parts xs p v t i);
          pkg = next_to_last (t ∷ xs) p v i;
          revision = last (t ∷ xs) p v i;
          workspace = [];
        }))

  parse_branch_target :
      parse_branch s false
      ≡ ok (record {
        target = t;
        repository = [];
        realm = join xs;
        pkg = p;
        revision = [];
        workspace = v;
      })
  unfolding parse_branch
  parse_branch_target =
      rw (cut, enough_inner)
        (λ i. ok (record {
          target = t;
          repository = [];
          realm = join (inner_parts xs p v t i);
          pkg = next_to_last (t ∷ xs) p v i;
          revision = [];
          workspace = last (t ∷ xs) p v i;
        }))

-- The three paths that a tag or a branch is joined from, as segments.
module _ (segs : List Str) (p v : Str) (hs : AreSegments segs) (hp : IsSegment p)
    (hv : IsSegment v) where
  join_catalog :
      join (intercalate slash segs ∷ p ∷ v ∷ []) ≡ intercalate slash (segs ++ (p ∷ v ∷ []))
  unfolding intercalate flatten
  join_catalog = join-segments (segs ∷ (p ∷ []) ∷ (v ∷ []) ∷ []) (hs, ((hp, tt), ((hv, tt), tt)))

  join_target :
      (t : Str)
      → IsSegment t
      → join (t ∷ intercalate slash segs ∷ p ∷ v ∷ [])
        ≡ intercalate slash (t ∷ (segs ++ (p ∷ v ∷ [])))
  unfolding intercalate flatten
  join_target t ht =
      join-segments ((t ∷ []) ∷ segs ∷ (p ∷ []) ∷ (v ∷ []) ∷ [])
        ((ht, tt), (hs, ((hp, tt), ((hv, tt), tt))))

  All-parts : AreSegments (segs ++ (p ∷ v ∷ []))
  All-parts = All-append IsSegment segs (p ∷ v ∷ []) hs (hp, (hv, tt))

  split_target :
      (t : Str)
      → IsSegment t
      → split slash (join (t ∷ intercalate slash segs ∷ p ∷ v ∷ [])) ≡ t ∷ (segs ++ (p ∷ v ∷ []))
  split_target t ht = rw (join_target t ht) (
      split-intercalate slash t (segs ++ (p ∷ v ∷ []))
        (no_slashes (t ∷ (segs ++ (p ∷ v ∷ []))) (ht, All-parts)))

  split_catalog : split slash (join (intercalate slash segs ∷ p ∷ v ∷ [])) ≡ segs ++ (p ∷ v ∷ [])
  split_catalog = rw join_catalog (split_all (segs ++ (p ∷ v ∷ [])) (λ e. ne segs e) All-parts)
    where
      ne : (l : List Str) → l ++ (p ∷ v ∷ []) ≢ []
      ne [] e = cc
      ne (x ∷ l) e = cc

      split_all : (l : List Str) → l ≢ [] → AreSegments l → split slash (intercalate slash l) ≡ l
      split_all [] n h = absurd (n refl)
      split_all (x ∷ l) n h = split-intercalate slash x l (no_slashes (x ∷ l) h)

-- The realm is a path of segments, and the package and the target are segments.
pub record IsTree (r : PackageRevId) (segs : List Str) : Type 0 where
  pub realm : r.realm ≡ intercalate slash segs
  pub segments : AreSegments segs
  pub target : IsSegment r.target
  pub pkg : IsSegment r.pkg

module _ (r : PackageRevId) (segs : List Str) (h : IsTree r segs) where
  realm_back : join segs ≡ r.realm
  realm_back = join-AreSegments segs h.segments ∙ sym h.realm

  -- A tag is parsed back to the identity that it was printed from, without its repository and its
  -- workspace, where the target, the package and the revision are segments and the realm is a
  -- path of segments. In a catalog the target is read as the catalog's.
  pub parse_tag-tag :
      (catalog : Bool)
      → IsSegment r.revision
      → parse_tag (tag r catalog) catalog
        ≡ ok (record r {
          target = if catalog then pkg_target_catalog else r.target;
          repository = [];
          workspace = [];
        })
  unfolding tag
  parse_tag-tag true hv =
      parse_tag_catalog segs r.pkg r.revision _
        (rw h.realm (split_catalog segs r.pkg r.revision h.segments h.pkg hv))
      ∙ (λ i. ok (record r {
        target = pkg_target_catalog;
        repository = [];
        realm = realm_back i;
        workspace = [];
      }))
  parse_tag-tag false hv =
      parse_tag_target r.target segs r.pkg r.revision _
        (rw h.realm (split_target segs r.pkg r.revision h.segments h.pkg hv r.target h.target))
      ∙ (λ i. ok (record r { repository = []; realm = realm_back i; workspace = [] }))

  -- A branch is parsed back to the identity that it was printed from, without its repository and its
  -- revision, where the target, the package and the workspace are segments and the realm is a path
  -- of segments. In a catalog the target is read as the catalog's.
  pub parse_branch-branch :
      (catalog : Bool)
      → IsSegment r.workspace
      → parse_branch (branch r catalog) catalog
        ≡ ok (record r {
          target = if catalog then pkg_target_catalog else r.target;
          repository = [];
          revision = [];
        })
  unfolding branch
  parse_branch-branch true hv =
      parse_branch_catalog segs r.pkg r.workspace _
        (rw h.realm (split_catalog segs r.pkg r.workspace h.segments h.pkg hv))
      ∙ (λ i. ok (record r {
        target = pkg_target_catalog;
        repository = [];
        realm = realm_back i;
        revision = [];
      }))
  parse_branch-branch false hv =
      parse_branch_target r.target segs r.pkg r.workspace _
        (rw h.realm (split_target segs r.pkg r.workspace h.segments h.pkg hv r.target h.target))
      ∙ (λ i. ok (record r { repository = []; realm = realm_back i; revision = [] }))
