-- ===== src/Exec/Operations.antt =====
-- The PVE operations of internal/exec/exec.go: create, cloneCreate, markTemplate, updateConfig,
-- start, delete and stopAndWait.
use proxops.Base.{
  ◌||◌, ◌&&◌, ◌++◌, [], ◌∷◌, List, Text, ◌++◌, codes, map, ◌∷◌, some, if◌then◌else◌, filter, not,
  ◌==◌, text_eq, [], false, ◌||◌, digits_of, ltb, length,
}
use proxops.Exec.Session.{
  World, Io, ◌>>◌, ◌>>=◌, raise, Form, send, text, start_guest, wait_task, delete_guest, with_error,
  sprint, get_config, Guest, stop_guest, create_guest, download, mark_guest, update_guest, qemu,
  clone_guest, lxc,
}
use proxops.Schema.Kind.{
  Kind, ref_text, artifact_kind, kind_ct_template, kind_vm, kind_template_ct, kind_template_vm,
  kind_disk_image, kind_lxc,
}
use proxops.Schema.CloneConfig.{clone_config_write}
use proxops.Schema.Value.{Params, string_or_empty, get}
use proxops.Plan.Types.{Action}

-- toValues
unfoldable pub to_values : Params → Form
to_values = map (λ e. (e.0, sprint e.1))

-- v.Set(k, s)
unfoldable pub set_value : Text → Text → Form → Form
set_value k s v = (k, text s) ∷ filter (λ e. not (text_eq e.0 k)) v

-- strings.Join(s, ",")
unfoldable pub join_comma : List Text → Text
join_comma [] = []
join_comma (s ∷ []) = s
join_comma (s ∷ t ∷ ts) = s ++ codes "," ++ join_comma (t ∷ ts)

-- s, _ := params[k].(string)
unfoldable pub text_param : Text → Params → Text
unfolding string_or_empty
text_param k p = string_or_empty (get k (some p))

-- The handle of start, stop, delete and updateConfig.
unfoldable pub guest_of : Kind → Guest
guest_of k = if text_eq k kind_vm || text_eq k kind_template_vm then qemu else lxc

-- The handle of markTemplate.
unfoldable pub mark_guest_of : Kind → Guest
mark_guest_of k = if text_eq k kind_template_ct || text_eq k kind_lxc then lxc else qemu

-- The content type of an artifact that does not say one.
unfoldable pub default_content : Kind → Text
default_content k =
    if text_eq k kind_ct_template
    then codes "vztmpl"
    else if text_eq k kind_disk_image
    then codes "import"
    else codes "iso"

-- "%s: "
abbrev pub prefixed : Text → Text → Text
prefixed s e = s ++ codes ": " ++ e

module _ (w : World) where
  unfoldable pub start_op : Action → Io Text Text
  unfolding send guest_of
  start_op a = send w (start_guest (guest_of a.kind) a.node a.id)

  unfoldable pub delete_op : Action → Io Text Text
  unfolding send guest_of
  delete_op a = send w (delete_guest (guest_of a.kind) a.node a.id)

  -- stopAndWait; the flag that it returns is true where the call succeeded.
  unfoldable pub stop_and_wait : Action → Io Text Unit
  unfolding send guest_of wait_task
  stop_and_wait a = do
    upid ← send w (stop_guest (guest_of a.kind) a.node a.id)
    wait_task w a.node upid

  -- markTemplate
  unfoldable pub mark_template_op : Action → Io Text Text
  unfolding send mark_guest_of
  mark_template_op a =
      with_error (λ e. prefixed (ref_text a.ref) (codes "mark-template: " ++ e))
        (send w (mark_guest (mark_guest_of a.kind) a.node a.id))

  -- updateConfig
  unfoldable pub update_config : Action → Io Text Text
  unfolding send guest_of artifact_kind to_values
  update_config a =
      if artifact_kind a.kind
      then raise (prefixed a.kind (codes "PVE storage artifacts do not take config updates"))
      else send w (update_guest (guest_of a.kind) a.node a.id (to_values a.params))

  -- create, for ISO, CTTemplate and DiskImage
  unfoldable pub download_artifact : Action → Io Text Text
  unfolding send text_param default_content
  download_artifact a =
      let storage = text_param (codes "storage") a.params in
      let url = text_param (codes "url") a.params in
      let filename = text_param (codes "filename") a.params in
      let content = text_param (codes "content") a.params in
      if text_eq storage [] || (text_eq url [] || text_eq filename [])
      then raise (prefixed a.kind (codes "storage/url/filename missing from params"))
      else send w (
          download a.node storage url filename
            (if text_eq content [] then default_content a.kind else content))

  -- create, for TemplateVM and TemplateCT: a guest that is not started, then marked.
  unfoldable pub create_template : Guest → Text → Action → Io Text Text
  unfolding send wait_task to_values
  create_template g left a = do
    upid ← send w (create_guest g a.node (to_values a.params) false)
    wait_task w a.node upid
    with_error
        (λ e.
          codes "create template-mark: "
          ++ e
          ++ codes " (created "
          ++ left
          ++ codes " left un-marked)")
        (send w (mark_guest g a.node a.id))

  -- cloneCreate
  unfoldable pub clone_create_op : Action → Io Text Text
  unfolding send wait_task get_config to_values set_value join_comma
  clone_create_op a =
      if a.clone_source_id == a.id
      then raise (
          prefixed (ref_text a.ref) (
            codes "clone source vmid equals target vmid ("
            ++ digits_of a.id
            ++ codes "); refusing"))
      else do
        upid ←
            with_error
              (λ e.
                prefixed (ref_text a.ref)
                  (codes "clone from vmid " ++ prefixed (digits_of a.clone_source_id) e))
              (send w (clone_guest a.node a.clone_source_id a.id a.name))
        with_error
            (λ e.
              prefixed (ref_text a.ref)
                (codes "clone task from vmid " ++ prefixed (digits_of a.clone_source_id) e))
            (wait_task w a.node upid)
        live ←
            with_error
              (λ e. prefixed (ref_text a.ref) (
                codes "clone created (vmid "
                ++ digits_of a.id
                ++ codes ") but reading its config failed: "
                ++ e))
              (get_config w a.node a.id)
        let v = to_values (clone_config_write a.params (some live))
        let form =
            (if ltb 0 (length a.delete_keys)
              then set_value (codes "delete") (join_comma a.delete_keys) v
              else v)
        with_error
            (λ e. prefixed (ref_text a.ref) (
              codes "clone created (vmid "
              ++ digits_of a.id
              ++ codes ") but post-clone config failed: "
              ++ e))
            (send w (update_guest qemu a.node a.id form))

  -- create
  unfoldable pub create_op : Action → Io Text Text
  unfolding send artifact_kind to_values clone_create_op download_artifact create_template
  create_op a =
      if artifact_kind a.kind
      then download_artifact a
      else if text_eq a.kind kind_template_vm
      then create_template qemu (codes "VM") a
      else if text_eq a.kind kind_template_ct
      then create_template lxc (codes "CT") a
      else if text_eq a.kind kind_vm && not (a.clone_source_id == 0)
      then clone_create_op a
      else send w (
          create_guest (if text_eq a.kind kind_vm then qemu else lxc) a.node (to_values a.params)
            (text_eq a.desired_power (codes "started")))
