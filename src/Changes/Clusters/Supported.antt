-- ===== src/Changes/Clusters/Supported.antt =====
-- What a custom cluster is that passes the checks of its parameters.
use rancher_ai_mcp.Prelude.{
  String, ◌≡◌, ◌≢◌, refl, ◌⊎◌, Bool, true, false, not, Option, none, some, List, ok, >>=-ok-inv,
  refuse_unless-inv, str_eq, str_ne,
}
use rancher_ai_mcp.Changes.{invalid}
use rancher_ai_mcp.Changes.Releases.{
  is_distribution, get_kdm_releases, supported_kubernetes_version, supported_cni,
}
use rancher_ai_mcp.Changes.Releases.Choice.{
  IsChoice, is_distribution-either, supported_kubernetes_version-IsChoice,
}
use rancher_ai_mcp.Changes.Clusters.{
  CustomParams, ClusterServices, custom_cluster, supported, create_custom_cluster_obj,
}

module _ {Object : Type 0} (x : ClusterServices Object) (lower : String → String) where
  -- The object is that of the parameters, at a version chosen from the releases.
  pub record IsSupported (p : CustomParams) (obj : Object) : Type 0 where
    pub version : String
    pub versions : List String
    pub fetched : get_kdm_releases x.releases x.rancher_url p.distribution ≡ ok versions
    pub choice : IsChoice p.version p.distribution versions (some version)
    pub made : x.custom_object (custom_cluster p version) ≡ ok obj
    pub cni : supported_cni (lower p.cni) ≡ true
    pub named : p.name ≢ ""
    pub distribution : (p.distribution ≡ "rke2") ⊎ (p.distribution ≡ "k3s")

  not-true : (b : Bool) → not b ≡ true → b ≡ false
  not-true true h = cc
  not-true false h = refl

  supported-inv :
      (o : Option String) (version : String) → supported o ≡ ok version → o ≡ some version
  unfolding supported
  supported-inv none version h = cc
  supported-inv (some v) version h = cc

  -- If the checks of a custom cluster's parameters pass, then it has a name, the distribution is
  -- rke2 or k3s, the CNI is a supported one up to case, and the object is that of the parameters
  -- at a version taken from the releases of the distribution: the one asked for, if it is
  -- released, or else one with the highest release number of those that contain it.
  pub create_custom_cluster_obj-IsSupported :
      (p : CustomParams) (obj : Object)
      → create_custom_cluster_obj x lower p ≡ ok obj
      → IsSupported p obj
  unfolding create_custom_cluster_obj
  create_custom_cluster_obj-IsSupported p obj h =
      let named = refuse_unless-inv (not (str_eq p.name "")) (invalid "name") _ obj h in
      let distro =
        refuse_unless-inv (is_distribution p.distribution) (invalid "distribution") _ obj named.1 in
      let cni = refuse_unless-inv (supported_cni (lower p.cni)) (invalid "cni") _ obj distro.1 in
      let found =
        >>=-ok-inv (supported_kubernetes_version x.releases x.rancher_url p.distribution p.version)
          _ cni.1 in
      let taken = >>=-ok-inv (supported found.0.0) _ found.2 in
      let version = supported-inv found.0.0 taken.0 taken.1 in
      let choice =
        supported_kubernetes_version-IsChoice x.releases x.rancher_url p.distribution p.version
          found.0 found.1 in
      record {
        version = taken.0;
        versions = found.0.1;
        fetched = choice.0;
        choice = rw version at choice.1;
        made = taken.2;
        cni = cni.0;
        named = str_ne p.name "" (not-true (str_eq p.name "") named.0);
        distribution = is_distribution-either p.distribution distro.0;
      }
