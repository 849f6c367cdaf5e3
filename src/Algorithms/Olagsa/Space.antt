-- ===== src/Algorithms/Olagsa/Space.antt =====
-- _impl/coordinate.py and _impl/segment.py: the points of a chromosome and the parts of the space
-- of chromosomes.
use allocation_key_generatio.Base.{Option, none, some, Bool, false, ◌&&◌, if◌then◌else◌}
use allocation_key_generatio.Base.Num.{Num, below}
use allocation_key_generatio.Algorithms.Olagsa.Outside.{Outside}

pub record Coordinate3D (F : Num) : Type 0 where
  pub x : F.Real
  pub y : F.Real
  pub z : F.Real

-- A `Coordinate`, which a `Coordinate3D` is as well
pub data Coordinate (F : Num) : Type 0 where
  flat : (x y : F.Real) → Coordinate F
  solid : Coordinate3D F → Coordinate F

pub record Segment (F : Num) : Type 0 where
  pub point_a : F.Real × F.Real
  pub point_b : F.Real × F.Real

-- `side_length` is the distance of the first two points.
pub record Triangle (F : Num) : Type 0 where
  pub point_a : Coordinate3D F
  pub point_b : Coordinate3D F
  pub point_c : Coordinate3D F
  pub side_length : F.Real

module _ (F : Num) where
  open F use {Real, nought, plus, minus, times, over, at_most, from_int}

  abbrev pub point : Real → Real → Real → Coordinate3D F
  point x y z = record { x = x; y = y; z = z }

  abbrev pub coord_x : Coordinate F → Real
  coord_x (flat x y) = x
  coord_x (solid p) = p.x

  abbrev pub coord_y : Coordinate F → Real
  coord_y (flat x y) = y
  coord_y (solid p) = p.y

  -- `getattr(c, "z", 0)`
  abbrev pub coord_z : Coordinate F → Real
  coord_z (flat x y) = nought
  coord_z (solid p) = p.z

  abbrev pub sum_coordinates_3d : Coordinate3D F → Coordinate3D F → Coordinate3D F
  sum_coordinates_3d a b = point (plus a.x b.x) (plus a.y b.y) (plus a.z b.z)

  abbrev pub divide : Coordinate3D F → Real → Coordinate3D F
  divide c k = point (over c.x k) (over c.y k) (over c.z k)

  abbrev pub square : Real → Real
  square x = times x x

  -- The literal 0.01
  abbrev tolerance : Real
  tolerance = over (from_int 1) (from_int 100)

  module _ (L : Outside F) where
    -- `Segment.point_within`
    unfoldable pub segment_within : Segment F → Coordinate F → Bool
    segment_within s c =
        let dx = minus s.point_b.0 s.point_a.0 in
        let dy = minus s.point_b.1 s.point_a.1 in
        let cx = minus (coord_x c) s.point_a.0 in
        let cy = minus (coord_y c) s.point_a.1 in
        let crossproduct = minus (times cy dx) (times cx dy) in
        let dotproduct = plus (times cx dx) (times cy dy) in
        if below F tolerance (L.absolute crossproduct)
        then false
        else if below F dotproduct nought
        then false
        else at_most dotproduct (plus (square dx) (square dy))

    abbrev pub distance_3d : Coordinate3D F → Coordinate3D F → Real
    distance_3d a b =
        L.sqrt
          (plus (plus (square (minus a.x b.x)) (square (minus a.y b.y))) (square (minus a.z b.z)))

    -- `Triangle(a, b, c)`
    abbrev pub new_triangle : Coordinate3D F → Coordinate3D F → Coordinate3D F → Triangle F
    new_triangle a b c = record {
      point_a = a;
      point_b = b;
      point_c = c;
      side_length = distance_3d a b;
    }

    -- `Triangle.point_within`, which reads a third coordinate: `none` is the AttributeError of a
    -- point that has none.
    unfoldable pub triangle_within : Triangle F → Coordinate F → Option Bool
    triangle_within t (flat x y) = none
    triangle_within t (solid p) = some (
        at_most (distance_3d t.point_a p) t.side_length
        && (at_most (distance_3d t.point_b p) t.side_length
            && at_most (distance_3d t.point_c p) t.side_length))
