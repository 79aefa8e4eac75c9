-- ===== src/Repo/Laws.antt =====
-- What internal/repoops/writer.go relies on in indigo's Merkle search tree: it is a map from paths to
-- CIDs, read here by `get` (mst.Tree.Get).
use robby.Prelude.{String, Bool, true, Option, none, some, ◌≡◌, ◌≢◌}
use robby.Repo.Indigo.{Indigo}
use robby.Repo.Batch.{path_of}

pub record TreeLaws {T C R K : Type 0} (ext : Indigo T C R K) (get : T → String → Option String)
    : Type 0 where
  pub get_empty : (p : String) → get ext.empty_tree p ≡ none
  pub insert_before :
      (t t' : T) (p c : String) (prev : Option String)
      → ext.insert t p c ≡ some (prev, t')
      → prev ≡ get t p
  pub insert_here :
      (t t' : T) (p c : String) (prev : Option String)
      → ext.insert t p c ≡ some (prev, t')
      → get t' p ≡ some c
  pub insert_elsewhere :
      (t t' : T) (p c : String) (prev : Option String) (q : String)
      → ext.insert t p c ≡ some (prev, t')
      → q ≢ p
      → get t' q ≡ get t q
  pub remove_before :
      (t t' : T) (p : String) (prev : Option String)
      → ext.remove t p ≡ some (prev, t')
      → prev ≡ get t p
  pub remove_here :
      (t t' : T) (p : String) (prev : Option String)
      → ext.remove t p ≡ some (prev, t')
      → get t' p ≡ none
  pub remove_elsewhere :
      (t t' : T) (p : String) (prev : Option String) (q : String)
      → ext.remove t p ≡ some (prev, t')
      → q ≢ p
      → get t' q ≡ get t q

-- syntax.ParseNSID accepts no text with a slash, so under such a collection a path tells the
-- collection and the key.
pub record NsidLaws (parse_nsid : String → Bool) : Type 0 where
  pub split :
      (c c' k k' : String)
      → parse_nsid c ≡ true
      → parse_nsid c' ≡ true
      → path_of c k ≡ path_of c' k'
      → (c ≡ c') × (k ≡ k')
