-- ===== src/Examples/Controllers.antt =====
-- Runs of the controllers' reconciliations and of finalizers.
use nephio.Base.{
  String, ◌<>◌, ◌≡◌, ◌≢◌, refl, ℕ, Bool, true, false, none, some, List, [], ◌∷◌, Result, ok, err,
  done, ◌==◌, string_eq, if◌then◌else◌, any, ◌&&◌, not, inl, inr,
}
use nephio.Porch
use nephio.Porch.{
  PackageRevision, OwnerReference, pos, negsuc, package_variant_ready, start_approval, returned,
}
use nephio.Porch.Laws.{package_variant_ready_lem}
use nephio.Approval.{propose}
use nephio.Approval
use nephio.Approval.Laws.{writes, writes-reconcile}
use nephio.Focom
use nephio.Focom.{Request, Status}
use nephio.Focom.Reconcile
use nephio.Focom.Laws.{
  is_creation, updates, process_remote, process_poll_error, handle_deletion_lem,
}
use nephio.Finalizer.{finalizer_exists, add_finalizer, remove_finalizer}
use nephio.Finalizer.Laws.{
  finalizer_exists-add_finalizer, remove_finalizer-add_finalizer, remove_finalizer_lem,
}

abbrev revision : PackageRevision
revision = record {
  namespace = "default";
  name = "upf.v1";
  annotations = ("approval.nephio.org/policy", "initial") ∷ [];
  owner_references =
      record {
        controller = some true;
        api_version = "config.porch.kpt.dev/v1alpha1";
        kind = "PackageVariant";
        name = "pv";
      }
      ∷ [];
  creation = 0;
  lifecycle = "Draft";
  package_name = "upf";
  repository_name = "edge";
  readiness_gates = [];
  conditions = [];
}

abbrev porch : Porch.World
porch = record {
  Fault = String;
  text = λ e. e;
  is_not_found = λ e. e == "not found";
  errorf = λ e. e;
  wrap = λ e m. m <> ": " <> e;
  quote = λ s. s;
  parse_duration = λ s. ok (pos 5);
  since = λ t. pos 9;
  draft = "Draft";
  proposed = "Proposed";
  published = "Published";
  is_published = λ l. l == "Published";
  is_revision_ready = λ gates cs. true;
  variant_version = "config.porch.kpt.dev/v1alpha1";
  get_revision = λ ns n. ok revision;
  list_revisions = ok (revision ∷ []);
  get_variant = λ ns n. ok (record { type = "Ready"; status = "True" } ∷ []);
  update = λ pr. none;
  add_to_scheme = none;
  rest_get = λ ns n. ok (record revision { lifecycle = "Published" });
  put_approval = λ pr. none;
}

reconcile_example :
    writes (Approval.reconcile porch (pos 30) "default" "upf.v1").calls
    ≡ propose (record revision { lifecycle = "Proposed" }) ∷ []
unfolding string_eq package_variant_ready nephio.Base.Dict.lookup
reconcile_example = writes-reconcile porch (pos 30) "default" "upf.v1" revision refl

package_variant_ready_example : package_variant_ready porch revision ≡ ok true
unfolding string_eq Porch.ready_condition
package_variant_ready_example = package_variant_ready_lem porch revision

proposed≢published : ◌≢◌ {A = String} "Published" "Proposed"
proposed≢published e = cc

abbrev status : Status
status = record { phase = "provisioning"; message = ""; last_updated = none; remote_name = "upf" }

abbrev request : Request
request = record {
  namespace = "default";
  name = "upf";
  deleted = false;
  finalizers = "focom.nephio.org/finalizer" ∷ [];
  spec_name = "upf";
  description = "";
  o_cloud_id = "edge";
  o_cloud_namespace = "default";
  template_name = "nf";
  template_version = "v1";
  template_parameters = "";
  status = status;
}

abbrev without : String → List String → List String
without x [] = []
without x (e ∷ es) = if e == x then without x es else e ∷ without x es

abbrev cluster : Focom.World
cluster = record {
  Fault = String;
  text = λ e. e;
  is_not_found = λ e. e == "not found";
  errorf = λ e. e;
  quote = λ s. s;
  now = 7;
  contains_finalizer = finalizer_exists;
  add_finalizer = λ f x. x ∷ f;
  remove_finalizer = λ f x. without x f;
  new_uuid = "1";
  Parameters = String;
  no_parameters = "";
  unmarshal = λ s. ok s;
  get_request = λ ns n. ok request;
  get_template_info = λ n ns. ok (record { template_name = "nf"; template_version = "v1" });
  get_o_cloud = λ n ns. ok (record { secret_name = "kube"; secret_namespace = "default" });
  get_secret = λ n ns. ok "config";
  update = λ r. none;
  update_status = λ r. none;
  RestConfig = String;
  Client = String;
  parse_kubeconfig = λ s. ok s;
  new_cluster = λ s. ok s;
  remote_create = λ c r. ok r.name;
  remote_get = λ c n. err "timeout";
  remote_delete = λ c n. some "not found";
}

upf≢nil : ◌≢◌ {A = String} "upf" ""
upf≢nil e = cc

process_poll_error_example :
    Focom.Reconcile.process cluster request
    ≡ Focom.stop cluster none (
        Focom.status_updated (
          Focom.set_status cluster request "failed" "poll error: error fetching remote CR: timeout")
        ∷ [])
unfolding finalizer_exists string_eq Focom.build_remote_client
process_poll_error_example =
    process_poll_error cluster request "config" "timeout" refl refl refl refl upf≢nil refl refl

process_remote_example :
    any (is_creation cluster) (Focom.Reconcile.process cluster request).calls ≡ false
process_remote_example = (process_remote cluster request).1 (inr (inl upf≢nil))

handle_deletion_example :
    updates cluster (Focom.Reconcile.handle_deletion cluster request).calls
    ≡ record request { finalizers = [] } ∷ []
unfolding finalizer_exists string_eq Focom.build_remote_client
handle_deletion_example = (handle_deletion_lem cluster request).0

remove_added_example : remove_finalizer (add_finalizer ("a" ∷ []) "b") "b" ≡ done ("a" ∷ [])
unfolding finalizer_exists string_eq
remove_added_example = remove_finalizer-add_finalizer ("a" ∷ []) "b" refl

remove_finalizer_example : remove_finalizer ("b" ∷ "b" ∷ "c" ∷ []) "b" ≡ done ("b" ∷ "c" ∷ [])
unfolding finalizer_exists string_eq
remove_finalizer_example = (remove_finalizer_lem [] "b").1 "c" [] refl refl

add_finalizer_example : finalizer_exists (add_finalizer ("a" ∷ []) "b") "b" ≡ true
add_finalizer_example = (finalizer_exists-add_finalizer ("a" ∷ []) "b").0
