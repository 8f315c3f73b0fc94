-- ===== src/Exec/Creation.antt =====
-- The creating operations keep a careful trace careful.
use proxops.Base.{
  [], ◌∷◌, codes, ◌≡◌, Text, Bool-cases, ◌==◌, text_eq, inl, inr, ◌||◌, arith, false, text_eq_iff,
  subst, refl, sym, ◌&&◌, not,
}
use proxops.Base.Result.{Result, ok, err}
use proxops.Schema.Kind.{artifact_kind, kind_template_vm, kind_template_ct, kind_vm}
use proxops.Exec.Session.{
  Event, World, Trace, called, read_config, send, get_config, Call, Guest, create_guest,
  clone_guest, qemu, mark_guest, lxc,
}
use proxops.Exec.Care.{
  AllCareful, IsCareful, HasCloned, Ends, Ends-continue, Ends-recast, Ends-imp, AfterWait,
  send-Ends, wait-Ends,
}
use proxops.Exec.Careful.{HasCloned-after}
use proxops.Exec.Operations.{
  download_artifact, create_template, clone_create_op, create_op, text_param, to_values,
}
use proxops.Schema.Value.{Params}
use proxops.Plan.Types.{Action, create}

module _ (B : Event → Type 0) (w : World) (a : Action) where
  -- The answer to a careful call.
  sent :
      (c : Call) (t : Trace)
      → IsCareful a (called c (w.answer t c)) t
      → AllCareful B a t
      → Ends (λ _ z. AllCareful B a z) (AllCareful B a) (send w c t)
  sent c t h k = Ends-imp (send-Ends B w a c t h k) (λ u z m. m.1)

  download_artifact-Ends :
      (t : Trace)
      → AllCareful B a t
      → Ends (λ _ z. AllCareful B a z) (AllCareful B a) (download_artifact w a t)
  unfolding download_artifact
  download_artifact-Ends t k =
      let s = text_param (codes "storage") a.params in
      let u = text_param (codes "url") a.params in
      let f = text_param (codes "filename") a.params in
      elim (Bool-cases (text_eq s [] || (text_eq u [] || text_eq f []))) [
        | inl e ↦ rw e (record { at = k })
        | inr e ↦ rw e (
            sent _ t
              (
                refl,
                (λ q. ground (arith, e, (text_eq_iff s []).1 q)),
                (λ q. ground (arith, e, (text_eq_iff u []).1 q)),
                λ q. ground (arith, e, (text_eq_iff f []).1 q),
              )
              k)
      ]

  create_template-Ends :
      (g : Guest) (left : Text) (t : Trace)
      → a.what ≡ create
      → AllCareful B a t
      → Ends (λ _ z. AllCareful B a z) (AllCareful B a) (create_template w g left a t)
  unfolding create_template
  create_template-Ends g left t h k =
      Ends-continue _ (sent (create_guest g a.node (to_values a.params) false) t (refl, h) k)
        (λ u z m.
          Ends-continue _ (wait-Ends B w a a.node u z m)
            (λ _ y n. Ends-recast _ (sent (mark_guest g a.node a.id) y (refl, refl) n.1)))

  read-Ends_on :
      (y : Trace) (r : Result Text Params)
      → AllCareful B a y
      → Ends
          (λ p v. (v ≡ read_config a.node a.id (ok p) ∷ y) × AllCareful B a v)
          (AllCareful B a)
          (r, read_config a.node a.id r ∷ y)
  read-Ends_on y (ok p) k = record { at = (refl, (inr tt, k)) }
  read-Ends_on y (err e) k = record { at = (inr tt, k) }

  clone_create-Ends :
      (t : Trace)
      → AllCareful B a t
      → Ends (λ _ z. AllCareful B a z) (AllCareful B a) (clone_create_op w a t)
  unfolding clone_create_op get_config
  clone_create-Ends t k = elim (Bool-cases (a.clone_source_id == a.id)) [
    | inl e ↦ rw e (record { at = k })
    | inr e ↦ rw e (
        Ends-continue _
          (Ends-recast _ (
            send-Ends B w a (clone_guest a.node a.clone_source_id a.id a.name) t
              (refl, refl, λ q. ground (arith, e, q)) k))
          (λ u z m. Ends-continue _ (Ends-recast _ (wait-Ends B w a a.node u z m.1)) (λ _ y n.
            let cloned = HasCloned-after a u t y (subst (λ x. AfterWait a.node u x y) m.0 n.0) in
            Ends-continue _ (Ends-recast _ (read-Ends_on y (w.config y a.node a.id) n.1)) (λ p v o.
              Ends-recast _ (
                sent _ v (refl, refl, λ _. subst (HasCloned a) (sym o.0) (HasCloned.earlier cloned))
                  o.1)))))
  ]

  pub create_op-Ends :
      (t : Trace)
      → a.what ≡ create
      → AllCareful B a t
      → Ends (λ _ z. AllCareful B a z) (AllCareful B a) (create_op w a t)
  unfolding create_op
  create_op-Ends t h k = elim (Bool-cases (artifact_kind a.kind)) [
    | inl e ↦ rw e (download_artifact-Ends t k)
    | inr e ↦ rw e (elim (Bool-cases (text_eq a.kind kind_template_vm)) [
      | inl v ↦ rw v (create_template-Ends qemu (codes "VM") t h k)
      | inr v ↦ rw v (elim (Bool-cases (text_eq a.kind kind_template_ct)) [
        | inl c ↦ rw c (create_template-Ends lxc (codes "CT") t h k)
        | inr c ↦ rw c (elim (Bool-cases (text_eq a.kind kind_vm && not (a.clone_source_id == 0))) [
          | inl n ↦ rw n (clone_create-Ends t k)
          | inr n ↦ rw n (sent _ t (refl, h) k)
        ])
      ])
    ])
  ]
