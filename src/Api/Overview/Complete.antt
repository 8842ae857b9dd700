-- ===== src/Api/Overview/Complete.antt =====
-- The items of `clientDashboard` of internal/httpapi/client_setup.go leave out no request and count none
-- twice.
use opencode_proxy.Base.{
  ◌≡◌, refl, sym, ap, subst, ◌∙◌, inl, inr, Bool, true, false, Bool-cases, List, [], ◌∷◌, ◌++◌, All,
  Option, none, some, filter, find, map, exists, if◌then◌else◌,
}
use opencode_proxy.Base.Sorting.{order_by, insert_by, insert_by-All, order_by-All}
use opencode_proxy.Base.Groups.{
  AreDistinct, group_by-AreDistinct, same_sym, sum_of, sum_of-order_by, sum_of-map, add_swap,
}
use opencode_proxy.Text.{Text, text_eq, text_eq_sound, text_eq_iff}
use opencode_proxy.Time.{Time, text_leb}
use opencode_proxy.Store.Types.{Db, RequestRow}
use opencode_proxy.Store.Telemetry.{master_id}
use opencode_proxy.Store.Reports.{
  ClientAggregate, client_aggregate, client_aggregates, most_requests, client_of, is_since,
  is_failure,
}
use opencode_proxy.Store.Reports.Conserved.{clients-sum}
use opencode_proxy.Store.Reports.Columns.{Totals, adding_totals, no_totals, add_totals, totals_of}
use opencode_proxy.Identity.{Client}
use opencode_proxy.Api.Server.{ClientItem}
use opencode_proxy.Api.Overview.{has_client_id, client_item, former_item, is_former, client_items}

abbrev pub totals_or_none : Option ClientAggregate → Totals
totals_or_none none = no_totals
totals_or_none (some a) = a.totals

abbrev pub item_totals : ClientItem → Totals
item_totals i = totals_or_none i.aggregate

-- What an aggregate adds if its client is not among some ids.
abbrev pub outside : List Text → ClientAggregate → Totals
outside ids a = if exists (text_eq a.client_id) ids then no_totals else a.totals

abbrev pub HaveOwnIds : List ClientAggregate → Type 0
HaveOwnIds [] = Unit {0}
HaveOwnIds (a ∷ as') =
    All (λ (b : ClientAggregate). text_eq b.client_id a.client_id ≡ false) as' × HaveOwnIds as'

abbrev pub AreOwn : List Text → Type 0
AreOwn [] = Unit {0}
AreOwn (id ∷ ids) = (exists (text_eq id) ids ≡ false) × AreOwn ids

outside-other :
    (id : Text) (ids : List Text) (as' : List ClientAggregate)
    → All (λ (b : ClientAggregate). text_eq b.client_id id ≡ false) as'
    → sum_of adding_totals (outside (id ∷ ids)) as' ≡ sum_of adding_totals (outside ids) as'
unfolding sum_of
outside-other id ids [] h = refl
outside-other id ids (a ∷ as') h = rw (h.0, outside-other id ids as' h.1) refl

outside-one :
    (id : Text) (ids : List Text) (as' : List ClientAggregate)
    → exists (text_eq id) ids ≡ false
    → HaveOwnIds as'
    → add_totals
        (totals_or_none (find (has_client_id id) as'))
        (sum_of adding_totals (outside (id ∷ ids)) as')
      ≡ sum_of adding_totals (outside ids) as'
unfolding sum_of
outside-one id ids [] n d = adding_totals.zero-add no_totals
outside-one id ids (a ∷ as') n d = elim (Bool-cases (text_eq a.client_id id)) [
  | inl same ↦
      let e = text_eq_sound a.client_id id same in
      let new : exists (text_eq a.client_id) ids ≡ false =
        subst (λ x. exists (text_eq x) ids ≡ false) (sym e) n in
      rw (same, new)
        (ap (add_totals a.totals) (
          adding_totals.zero-add _
          ∙ outside-other id ids as' (
              subst (λ x. All (λ (b : ClientAggregate). text_eq b.client_id x ≡ false) as') e d.0)))
  | inr other ↦ rw other (
      add_swap adding_totals _ (outside ids a) _
      ∙ ap (add_totals (outside ids a)) (outside-one id ids as' n d.1))
]

-- The aggregates of some ids, and those of all others.
ids-and_outside :
    (ids : List Text) (as' : List ClientAggregate)
    → AreOwn ids
    → HaveOwnIds as'
    → add_totals
        (sum_of adding_totals (λ id. totals_or_none (find (has_client_id id) as')) ids)
        (sum_of adding_totals (outside ids) as')
      ≡ sum_of adding_totals (λ (a : ClientAggregate). a.totals) as'
unfolding sum_of
ids-and_outside [] as' o d = adding_totals.zero-add _
ids-and_outside (id ∷ ids) as' o d =
    adding_totals.add_assoc _ _ _
    ∙ (add_swap adding_totals _ _ _
        ∙ (ap (add_totals _) (outside-one id ids as' o.0 d) ∙ ids-and_outside ids as' o.1 d))

sum_of-append :
    (f : ClientItem → Totals) (xs ys : List ClientItem)
    → sum_of adding_totals f (xs ++ ys)
      ≡ add_totals (sum_of adding_totals f xs) (sum_of adding_totals f ys)
unfolding sum_of
sum_of-append f [] ys = sym (adding_totals.zero-add _)
sum_of-append f (x ∷ xs) ys =
    ap (add_totals (f x)) (sum_of-append f xs ys) ∙ sym (adding_totals.add_assoc _ _ _)

exists-map :
    (p : Text → Bool) (cs : List Client) → exists p (map (λ c. c.id) cs) ≡ exists (λ c. p c.id) cs
exists-map p [] = refl
exists-map p (c ∷ cs) = ap (λ b. if p c.id then true else b) (exists-map p cs)

former-outside :
    (clients : List Client) (as' : List ClientAggregate)
    → sum_of adding_totals (λ (a : ClientAggregate). a.totals) (filter (is_former clients) as')
      ≡ sum_of adding_totals (outside (master_id ∷ map (λ c. c.id) clients)) as'
unfolding sum_of
former-outside clients [] = refl
former-outside clients (a ∷ as') =
    let same = exists-map (text_eq a.client_id) clients in
    let rest = former-outside clients as' in
    elim (Bool-cases (text_eq a.client_id master_id)) [
      | inl is_master ↦ rw is_master (rest ∙ sym (adding_totals.zero-add _))
      | inr other ↦ elim (Bool-cases (exists (λ c. text_eq a.client_id c.id) clients)) [
        | inl held ↦ rw (other, same, held) (rest ∙ sym (adding_totals.zero-add _))
        | inr gone ↦ rw (other, same, gone) (ap (add_totals a.totals) rest)
      ]
    ]

items-sum :
    (clients : List Client) (as' : List ClientAggregate)
    → AreOwn (master_id ∷ map (λ c. c.id) clients)
    → HaveOwnIds as'
    → sum_of adding_totals item_totals (client_items clients as')
      ≡ sum_of adding_totals (λ (a : ClientAggregate). a.totals) as'
unfolding client_items sum_of
items-sum clients as' o d =
    ap (add_totals _) (
      sum_of-order_by adding_totals item_totals (λ x y. text_leb x.name y.name) _
      ∙ (sum_of-append item_totals (map (client_item as') clients) _
          ∙ (ap
                (λ x. add_totals x (
                  sum_of adding_totals item_totals
                    (map former_item (filter (is_former clients) as'))))
                (sum_of-map adding_totals item_totals (client_item as') clients
                  ∙ sym (
                      sum_of-map adding_totals (λ id. totals_or_none (find (has_client_id id) as'))
                        (λ c. c.id) clients))
              ∙ ap (add_totals _) (
                  sum_of-map adding_totals item_totals former_item _
                  ∙ former-outside clients as'))))
    ∙ (sym (adding_totals.add_assoc _ _ _)
        ∙ ids-and_outside (master_id ∷ map (λ c. c.id) clients) as' o d)

abbrev pub Group : Type 0
Group = Text × List RequestRow

insert_by-AreDistinct :
    (before : Group → Group → Bool) (g : Group) (gs : List Group)
    → All (λ (h : Group). text_eq h.0 g.0 ≡ false) gs
    → AreDistinct text_eq gs
    → AreDistinct text_eq (insert_by before g gs)
unfolding insert_by
insert_by-AreDistinct before g [] n d = (tt, tt)
insert_by-AreDistinct before g (h ∷ gs) n d = elim (Bool-cases (before g h)) [
  | inl first ↦ rw first (n, d)
  | inr behind ↦ rw behind (
    insert_by-All before (λ (x : Group). text_eq x.0 h.0 ≡ false) g gs
        (same_sym text_eq text_eq_iff h.0 g.0 n.0) d.0,
    insert_by-AreDistinct before g gs n.1 d.1,
  )
]

order_by-AreDistinct :
    (before : Group → Group → Bool) (gs : List Group)
    → AreDistinct text_eq gs
    → AreDistinct text_eq (order_by before gs)
unfolding order_by
order_by-AreDistinct before [] d = tt
order_by-AreDistinct before (g ∷ gs) d =
    insert_by-AreDistinct before g (order_by before gs)
      (order_by-All (λ (h : Group). text_eq h.0 g.0 ≡ false) before gs d.0)
      (order_by-AreDistinct before gs d.1)

aggregates-new :
    (id : Text) (gs : List Group)
    → All (λ (h : Group). text_eq h.0 id ≡ false) gs
    → All (λ (b : ClientAggregate). text_eq b.client_id id ≡ false) (map client_aggregate gs)
unfolding client_aggregate
aggregates-new id [] a = tt
aggregates-new id (g ∷ gs) a = (a.0, aggregates-new id gs a.1)

aggregates-HaveOwnIds :
    (gs : List Group) → AreDistinct text_eq gs → HaveOwnIds (map client_aggregate gs)
unfolding client_aggregate
aggregates-HaveOwnIds [] d = tt
aggregates-HaveOwnIds (g ∷ gs) d = (aggregates-new g.0 gs d.0, aggregates-HaveOwnIds gs d.1)

-- The items of the clients leave out no request and count none twice: where the clients have ids of
-- their own, none of them the master's, the totals of the items are together those of all requests
-- since the given time.
pub client_items-sum :
    (clients : List Client) (since : Time) (db : Db)
    → AreOwn (master_id ∷ map (λ c. c.id) clients)
    → sum_of adding_totals item_totals (client_items clients (client_aggregates since db))
      ≡ totals_of is_failure (filter (is_since since) db.requests)
unfolding client_aggregates
client_items-sum clients since db own =
    items-sum clients (client_aggregates since db) own (
      aggregates-HaveOwnIds _ (
        order_by-AreDistinct most_requests _ (
          group_by-AreDistinct text_eq text_eq_iff client_of
            (filter (is_since since) db.requests))))
    ∙ clients-sum since db
