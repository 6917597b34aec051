-- ===== src/Layout/SortOrders.antt =====
-- Sort orders compared as frontend/src/lib/graph-layout.ts compares them are totally ordered.
use interbellum.Common.{true, ◌&&◌, ◌||◌, ◌≡◌, refl, ap, arith, IsOrder, IsTransitive}
use interbellum.Integers.{ℤ, pos, negsuc}
use interbellum.Layout.{le_sort_order, same_sort_order}

le_sort_order-IsTransitive : IsTransitive le_sort_order
le_sort_order-IsTransitive (pos l) (pos m) (pos n) h k = ground arith
le_sort_order-IsTransitive (pos l) (pos m) (negsuc n) h k = cc
le_sort_order-IsTransitive (pos l) (negsuc m) (pos n) h k = cc
le_sort_order-IsTransitive (pos l) (negsuc m) (negsuc n) h k = cc
le_sort_order-IsTransitive (negsuc l) (pos m) (pos n) h k = refl
le_sort_order-IsTransitive (negsuc l) (pos m) (negsuc n) h k = cc
le_sort_order-IsTransitive (negsuc l) (negsuc m) (pos n) h k = refl
le_sort_order-IsTransitive (negsuc l) (negsuc m) (negsuc n) h k = ground arith

le_sort_order_total : (x y : ℤ) → (le_sort_order x y || le_sort_order y x) ≡ true
le_sort_order_total (pos m) (pos n) = ground arith
le_sort_order_total (pos m) (negsuc n) = refl
le_sort_order_total (negsuc m) (pos n) = refl
le_sort_order_total (negsuc m) (negsuc n) = ground arith

le_sort_order-same : (x y : ℤ) → same_sort_order x y ≡ (le_sort_order x y && le_sort_order y x)
le_sort_order-same (pos m) (pos n) = ground arith
le_sort_order-same (pos m) (negsuc n) = refl
le_sort_order-same (negsuc m) (pos n) = refl
le_sort_order-same (negsuc m) (negsuc n) = ground arith

pub le_sort_order-IsOrder : IsOrder le_sort_order same_sort_order
le_sort_order-IsOrder = record {
  chain = le_sort_order-IsTransitive;
  total = le_sort_order_total;
  tie = le_sort_order-same;
}

pub same_sort_order-eq : (x y : ℤ) → same_sort_order x y ≡ true → x ≡ y
same_sort_order-eq (pos m) (pos n) h = ap pos (ground arith)
same_sort_order-eq (pos m) (negsuc n) h = cc
same_sort_order-eq (negsuc m) (pos n) h = cc
same_sort_order-eq (negsuc m) (negsuc n) h = ap negsuc (ground arith)
