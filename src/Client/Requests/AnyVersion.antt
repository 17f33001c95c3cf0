-- ===== src/Client/Requests/AnyVersion.antt =====
-- The requests to the local cluster at whichever version of a resource type is served.
use rancher_ai_mcp.Prelude.{String, ◌≡◌, some, List, Result, if◌then◌else◌}
use rancher_ai_mcp.Prelude.Int.{pos, ltb_ℤ}
use rancher_ai_mcp.Prelude.Dict
use rancher_ai_mcp.Changes.{Gvr}
use rancher_ai_mcp.Client.{CallError, Client, ListOptions, ResourceInterface, Kube, Step}
use rancher_ai_mcp.Client.Requests.{ListParams}
use rancher_ai_mcp.Client.Requests.Versions.{IsFirst}
use rancher_ai_mcp.Client.Requests.Listing.{IsListed}

-- The options of a list request: its selector, and its limit where that is positive.
abbrev pub options_of : ListParams → ListOptions
options_of p = record {
  label_selector = p.label_selector;
  limit = if ltb_ℤ (pos 0) p.limit then p.limit else pos 0;
}

module _ {RestConfig Object : Type 0} (k : Kube RestConfig Object) (c : Client)
    (resolve : String → String → String → String → Step Gvr) where
  -- What a request at any version returns: the kind is in the table of kinds, the local cluster
  -- lists the versions of its group, and the first of these that does not answer that nothing is
  -- found answers this.
  pub data IsAnswer {A : Type 0} (token namespace kind : String)
      (ask : ResourceInterface Object → Result CallError A) (a : A) : Type 0 where
    is_answer :
        (gvr : Gvr) (versions : List String)
        → Dict.get k.kinds (k.to_lower kind) ≡ some gvr
        → IsListed k c resolve token gvr.group versions
        → IsFirst k c resolve token namespace ask gvr versions a
        → IsAnswer token namespace kind ask a
