-- ===== src/Changes/Releases.antt =====
-- pkg/toolsets/provisioning/provisioning_utils.go: the Kubernetes versions that Rancher releases
-- for a distribution, and the one that a request for a version takes.

pub mod Latest
pub mod Choice
use rancher_ai_mcp.Prelude.{
  ℕ, ◌<◌, String, Bool, true, false, ◌||◌, Option, none, some, List, [], ◌∷◌, Result, ok, err,
  ◌>>=◌, ◌>>◌, refuse_unless, if◌then◌else◌, ltb, str_eq, concat, contains, cut, atoi, any,
}
use rancher_ai_mcp.Prelude.Int.{ℤ, pos, negsuc}
use rancher_ai_mcp.Changes.{Failure, invalid, unexpected_response}

-- An element of the list of releases: an object with a version, one without, or no object.
pub data Release : Type 0 where
  release : String → Release
  no_version no_object : Release

-- The GET of the releases of a distribution at a URL, read and decoded; `none` where its "data" is
-- no list.
abbrev pub Releases : Type 0
Releases = String → Result Failure (Option (List Release))

pub is_distribution : String → Bool
is_distribution distro = str_eq distro "rke2" || str_eq distro "k3s"

pub release_versions : List Release → Result Failure (List String)
release_versions [] = ok []
release_versions (no_object ∷ rest) = err (unexpected_response "release is not an object")
release_versions (no_version ∷ rest) = err (unexpected_response "release version is not a string")
release_versions (release version ∷ rest) = do
  versions ← release_versions rest
  ok (version ∷ versions)

data_versions : Option (List Release) → Result Failure (List String)
unfolding release_versions
data_versions none = err (unexpected_response "missing 'data' field")
data_versions (some releases) = release_versions releases

-- `getKDMReleases`
pub get_kdm_releases : Releases → String → String → Result Failure (List String)
unfolding is_distribution data_versions
get_kdm_releases fetch url distro =
    refuse_unless (is_distribution distro) (invalid "distro")
    >> (fetch (concat url (concat "/v1-" (concat distro "-release/releases"))) >>= data_versions)

-- The loop over the releases: `none` where one is the requested version, or else those whose
-- name contains the version of the distribution.
pub potential_versions : String → String → List String → Option (List String)
potential_versions version wanted [] = some []
potential_versions version wanted (v ∷ versions) =
    let rest = potential_versions version wanted versions in
    if str_eq v version then none else elim rest [
      | none ↦ none
      | some found ↦ some (if contains v wanted then v ∷ found else found)
    ]

pub number_of : Option ℤ → Option ℕ
number_of none = none
number_of (some (pos n)) = some n
number_of (some (negsuc n)) = none

after_cut : Option (String × String) → Option ℕ
unfolding number_of
after_cut none = none
after_cut (some (before, number)) = number_of (atoi number)

-- The number of a release, after the name of its distribution; one below 0 never counts.
pub release_number : String → String → Option ℕ
unfolding after_cut
release_number split version = after_cut (cut version split)

pub is_above : ℕ → Option ℕ → Bool
is_above latest none = false
is_above latest (some n) = ltb latest n

pub or_zero : Option ℕ → ℕ
or_zero none = 0
or_zero (some n) = n

-- The loop over the potential versions, from the latest so far and its number.
pub latest_version : String → String → ℕ → List String → String
unfolding is_above or_zero release_number
latest_version split best n [] = best
latest_version split best n (v ∷ versions) = elim (is_above n (release_number split v)) [
  | true ↦ latest_version split v (or_zero (release_number split v)) versions
  | false ↦ latest_version split best n versions
]

pub split_of : String → String
split_of distro = if str_eq distro "k3s" then "k3s" else "rke2r"

-- "version+distro"
pub distro_version : String → String → String
distro_version version distro = concat version (concat "+" distro)

chosen : String → Option String
chosen latest = if str_eq latest "" then none else some latest

choose : String → String → Option (List String) → Option String
unfolding chosen latest_version split_of
choose version distro none = some version
choose version distro (some found) = chosen (latest_version (split_of distro) "" 0 found)

-- The version that `supportedKubernetesVersion` takes from the releases, if it supports one.
unfoldable pub choose_version : String → String → List String → Option String
unfolding choose potential_versions distro_version
choose_version version distro versions =
    choose version distro (potential_versions version (distro_version version distro) versions)

-- `supportedKubernetesVersion`, with the releases that its error lists
unfoldable pub supported_kubernetes_version :
    Releases → String → String → String → Result Failure (Option String × List String)
unfolding get_kdm_releases choose_version
supported_kubernetes_version fetch url distro version = do
  versions ← get_kdm_releases fetch url distro
  ok (choose_version version distro versions, versions)

abbrev pub supported_cnis : List String
supported_cnis =
    "calico" ∷ "canal" ∷ "cilium" ∷ "flannel" ∷ "multus,canal" ∷ "multus,cilium" ∷ "multus,calico"
    ∷ "none" ∷ []

-- `supportedCNI`
unfoldable pub supported_cni : String → Bool
supported_cni cni = any (str_eq cni) supported_cnis
