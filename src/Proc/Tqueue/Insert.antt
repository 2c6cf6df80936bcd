-- ===== src/Proc/Tqueue/Insert.antt =====
-- `tq_insert_after` of kernel/proc/sched/tqueue.c on the list that the queue stands for.
use aeolos.Base.{◌≡◌, ◌≢◌, refl, sym, ◌∙◌, true, false, List, [], ◌∷◌, ◌++◌, ◌==◌, arith, some}
use aeolos.Proc.Tasks.{Ptr, null, Tasks, set_next, set_prev, link_laws, other_laws}
use aeolos.Proc.Tqueue.{Tqueue, tq_insert_after}
use aeolos.Proc.Tqueue.Links.{
  last_or, has, has-append, head_or-append, last_or-append, has-last_or, has-ne, Links-relink_prev,
  Links-frame, Links-split, Links-join,
}
use aeolos.Proc.Tqueue.Ops.{IsQueue, OnlyLinks, eq_self, mem-ne, head_ne_null}

-- The two writes that the function begins with.
abbrev cleared : Tasks → Ptr → Tasks
cleared m t = set_next (set_prev m t null) t null

abbrev at_back : Tasks → Ptr → Ptr → Tasks
at_back m a t = set_prev (set_next (cleared m t) a t) t a

abbrev between : Tasks → Ptr → Ptr → Ptr → Tasks
between m a t b = set_next (set_prev (set_next (set_prev (cleared m t) b t) a t) t a) t b

-- The queue with the new task, as the function returns it.
abbrev pub Inserted : Tasks → Tqueue → Ptr → Ptr → List Ptr → List Ptr → Type 0
Inserted m q a t xs ys =
    (q' : Tqueue) × (m' : Tasks) × (tq_insert_after q a t m ≡ some (q', m'))
    × IsQueue m' q' (xs ++ (a ∷ t ∷ ys))
    × OnlyLinks m m'

module _ (m : Tasks) (q : Tqueue) (a t : Ptr) (xs : List Ptr) (ne : t ≢ null) where
  insert_last :
      IsQueue m q (xs ++ (a ∷ [])) → has t (xs ++ (a ∷ [])) ≡ false → Inserted m q a t xs []
  unfolding tq_insert_after
  insert_last v new =
      let m' = at_back m a t in
      let (front, back, apart) = Links-split m null null xs (a ∷ []) v.links in
      let out : (has t xs ≡ false) × ((t == a) ≡ false) =
        ground (arith, has-append t xs (a ∷ [])) in
      let ta : (a == t) ≡ false = ground arith in
      let at : q.back ≡ a = v.back ∙ last_or-append null xs (a ∷ []) in
      let here : (a == null) ≡ false = ground (arith, back.0) in
      let last : (a == q.back) ≡ true = ground arith in
      (
        record q { back = t },
        m',
        rw (here, last, tq_insert_after),
        record {
          front =
              v.front ∙ head_or-append null xs (a ∷ []) ∙ sym (head_or-append null xs (a ∷ t ∷ []));
          back = sym (last_or-append null xs (a ∷ t ∷ []));
          links =
              Links-join m' null null xs (a ∷ t ∷ [])
                (Links-frame m m' null a xs
                  (λ c i.
                    let ct = mem-ne c t xs i out.0 in
                    let ca : (c == a) ≡ false = ground (arith, apart c) in
                    simp (link_laws, ct, ca) (refl, refl))
                  front)
                (
                  back.0,
                  simp (link_laws, ta) back.1,
                  simp (link_laws, eq_self),
                  (let e : (a == t) ≡ false = ta in rw e),
                  (ne, simp (link_laws, eq_self), simp (link_laws, out.1, eq_self), refl, tt),
                )
                (λ c i. let ct = mem-ne c t xs i out.0 in ground (arith, apart c));
        },
        λ c. simp other_laws (refl, refl, refl, refl, refl),
      )

  insert_between :
      (b : Ptr) (ys : List Ptr)
      → IsQueue m q (xs ++ (a ∷ b ∷ ys))
      → has t (xs ++ (a ∷ b ∷ ys)) ≡ false
      → Inserted m q a t xs (b ∷ ys)
  unfolding tq_insert_after
  insert_between b ys v new =
      let m' = between m a t b in
      let (front, back, apart) = Links-split m null null xs (a ∷ b ∷ ys) v.links in
      let out : (has t xs ≡ false) × ((t == a) ≡ false) × (has t (b ∷ ys) ≡ false) =
        ground (arith, has-append t xs (a ∷ b ∷ ys)) in
      let ta : (a == t) ≡ false = ground arith in
      let ba : (a == b) ≡ false = ground arith in
      let at : q.back ≡ last_or b ys = v.back ∙ last_or-append null xs (a ∷ b ∷ ys) in
      let here : (a == null) ≡ false = ground (arith, back.0) in
      let not_last : (a == q.back) ≡ false =
        rw at (has-ne a (last_or b ys) (b ∷ ys) (has-last_or b ys) back.3) in
      let next : (cleared m t a).next ≡ b = simp (link_laws, ta) back.2 in
      let some_next : ((cleared m t a).next == null) ≡ false =
        rw next (head_ne_null m a null b ys back.4) in
      (
        q,
        m',
        rw (here, not_last, some_next, next, tq_insert_after),
        record {
          front =
              v.front
              ∙ head_or-append null xs (a ∷ b ∷ ys)
              ∙ sym (head_or-append null xs (a ∷ t ∷ b ∷ ys));
          back = at ∙ sym (last_or-append null xs (a ∷ t ∷ b ∷ ys));
          links =
              Links-join m' null null xs (a ∷ t ∷ b ∷ ys)
                (Links-frame m m' null a xs
                  (λ c i.
                    let ct = mem-ne c t xs i out.0 in
                    let ca : (c == a) ≡ false = ground (arith, apart c) in
                    let cb : (c == b) ≡ false = ground (arith, apart c) in
                    simp (link_laws, ct, ca, cb) (refl, refl))
                  front)
                (
                  back.0,
                  simp (link_laws, ta, ba) back.1,
                  simp (link_laws, ta, eq_self),
                  (let e : (a == t) ≡ false = ta in ground (arith, back.3)),
                  (
                    ne,
                    simp (link_laws, eq_self),
                    simp (link_laws, eq_self),
                    out.2,
                    Links-relink_prev m m' a t null b ys
                        (λ c i.
                          let ct = mem-ne c t (b ∷ ys) i out.2 in
                          let ca = mem-ne c a (b ∷ ys) i back.3 in
                          simp (link_laws, ct, ca) (refl, refl))
                        back.4,
                  ),
                )
                (λ c i. let ct = mem-ne c t xs i out.0 in ground (arith, apart c));
        },
        λ c. simp other_laws (refl, refl, refl, refl, refl),
      )

-- `tq_insert_after` puts a task that is not in the queue right behind the task given, wherever
-- that stands in the queue, and writes only links; it follows no NULL link.
pub tq_insert_after_lem :
    (m : Tasks) (q : Tqueue) (a t : Ptr) (xs ys : List Ptr)
    → IsQueue m q (xs ++ (a ∷ ys))
    → t ≢ null
    → has t (xs ++ (a ∷ ys)) ≡ false
    → Inserted m q a t xs ys
tq_insert_after_lem m q a t xs [] v ne new = insert_last m q a t xs ne v new
tq_insert_after_lem m q a t xs (b ∷ ys) v ne new = insert_between m q a t xs ne b ys v new
