-- ===== src/Lib.antt =====
-- A verification library for the DQ compiler.
--
-- The compiler reads DQ source text, follows its conditional directives, evaluates constants,
-- exchanges module interfaces through binary files, and finds the modules that a `use` names and
-- the symbols that a name stands for. Fourteen parts of it are modelled:
--
-- DqmIf: compiler/ast/dqm_if.cpp and dqm_if.h, the writer and the reader of interface files. A
--   vector of bytes is a list of numbers below 256, and an error text a constructor of DqmError. A
--   method is a function from the object to the object with its result: ODqmIfWriter::AddRec is
--   add_rec, ODqmIfReader::NextRec is next_rec, and so on. DqmIf.File holds BuildFileData and
--   ReadFromData; DqmIf.Stream, Scalars, Group, Nested and File.RoundTrip hold the theorems.
-- Feeder: compiler/parser/scf_base.cpp and scf_base.h, the source reader OScFeederBase. A pointer
--   into a file's body is its offset; the loops run over the bytes in front of the cursor. State
--   holds the positions, Scan and Tokens the reading operations, Quoted ReadQuotedString.
-- Preproc: the conditional directives of compiler/parser/scf_dq.cpp and scf_dq.h. The chain of
--   OScfCondition objects is a list, the innermost first. The conditions and symbols are the
--   compiler's, the record Compiler of Preproc.State, which is a parameter: IsSymbolDefined and
--   ParseDefineCondition. Branches holds the steps on the chain, Directives the reading of the
--   directives, Items the blocks and what their conditions select. Skipping holds SkipInactiveCode,
--   with fuel for one round per byte, LineEndsBeforeNextToken and IsValidLinkLibName. The reader
--   below is Feeder's.
-- ConstInt: compiler/types/otype_int.cpp and otype_int.h. An int64_t or uint64_t is its bit
--   pattern, a number below 2^64. Normal holds NormalizeConstant, Fold holds CalculateConstant.
-- ModulePath: compiler/ast/module_path.cpp and module_path.h. Items holds Split, Join,
--   NormalizeLocalPath and ModuleIdFromPackageLocal on texts, Resolve holds ParseUsePath and
--   ResolveFrom. The paths of the file system and the operations on them are a parameter, the record
--   FileSystem; AbsNormPath of compiler/utils/dq_utils.cpp, which asks the file system, is one of
--   them. The options that are read are the record Options.
--
-- TypeSpec: the type specifications in an interface file, OType::WriteDqmIfTypeSpec of
--   compiler/ast/symbols.cpp and OModuleIntf::ReadTypeSpec of compiler/ast/module_intf.cpp, on the
--   writer and the reader of DqmIf. Types holds the types and the ids of the records, Write and Read
--   the two directions. What the names of a module stand for, and the signatures of function types,
--   are a parameter, the record Names of TypeSpec.Read.
-- Scopes: compiler/ast/oscope.cpp, and OModuleUse of compiler/ast/symbols.cpp. An address is a
--   number, a std::map an association list (Maps), and the scopes above one stand behind it in a
--   list. Lookup holds FindType and FindValSymEx, Define holds DefineValSym with its warning of
--   shadowing, Assigned the list of first assignments, Uses the marks of methods' uses, and Selected
--   the symbols that a `use` selects.
-- Attributes: OValSym::WriteDqmIfAttributes of compiler/ast/symbols.cpp, and ReadAttributes and
--   ApplyDqmIfAttributes of compiler/ast/module_intf.cpp. The flags are a list of bits and the number
--   that they make.
-- Layout: OCompoundType::EnsureLayout of compiler/types/otype_compound.cpp with AlignUpU32 of
--   compiler/ast/symbols.cpp. A member is given by the size and the alignment of its type.
-- Parser: the levels of binary operators of compiler/parser/dqc_parser_expr.cpp, ParseBinOpLevel,
--   ParseExprAdd and the functions below it to ParseExprUnary, and ParseComparison above them, on
--   the reader of Feeder. What they call besides is a parameter, the records Front of Parser.Levels
--   and Compares of Parser.Comparison: SkipWhite and Eof of the preprocessor, postfix expressions,
--   type specifications, and CreateBinExpr and CreateCompareExpr with the other nodes.
-- Typing: CreateBinExpr and HarmonizeNumericOperands of compiler/ast/dqc_ast.cpp, and the type of
--   an OBinExpr and the cases of OBinExpr::Generate in compiler/ast/expressions.cpp, by the kinds of
--   the operands' types.
-- Calls: the choice of an overload or a constructor, AnalyzeCallCandidate and
--   CompareCallCandidateScore of compiler/types/otype_func.cpp, FindConstructorForArgs of
--   compiler/types/otype_compound.cpp and the loop of ParseExprOverloadCallWithRawArgs of
--   compiler/parser/dqc_parser_expr.cpp. A type is its address and what a call asks of it; the cost
--   of a conversion is a parameter, the record Compiler of Calls.Candidates.
-- Objects: the members, virtual tables and constructor contracts of OTypeObject in
--   compiler/types/otype_compound.cpp. A class with its bases is a list, the class first.
-- Utf8: DecodeSingleUtf8Scalar of compiler/parser/dqc_parser_expr.cpp. A mask is a remainder or a
--   quotient by a power of two.
--
-- Prelude holds the names and lemmas that they share, and Tests holds runs at concrete inputs.
--
-- Bounds and fuel. The widths of the fields are written out as remainders by powers of two. Most
-- loops are structural recursion on the bytes in front of the cursor. The loops on fuel are: the
-- padding to a multiple of four, with three rounds, since one of any four numbers in a row is a
-- multiple of four; SkipGroup, with one round for each byte of the payload and two more, since a
-- record takes at least four bytes; and the dedent of a quoted text, with one round more than the
-- text has bytes, since a line takes at least its line end. The fuel of WriteDqmIfTypeSpec and
-- ReadTypeSpec bounds the depth of their recursion: the depth of the type is enough, and for
-- ReadTypeSpec one more than the bytes that are left, if the reading of function signatures ends. The
-- fuel of ParseExprAdd bounds the rounds of a level and the depth of the unary operators: more than
-- the nodes of the tree is enough. The loop of ReadAttributes has a round for each record; six are
-- enough for what WriteDqmIfAttributes writes.
--
-- Where C++ leaves the behaviour open the model says so: a division by zero and a shift by 64 or
-- more give `undefined`, and a pop_back of an empty stack in OModulePath gives `none`, while a signed
-- overflow of the operations of constants is taken to wrap.
--
-- Not modelled: the files and processes of the operating system (OScFile::Load, WriteToFile,
-- ReadFromFile), texts of messages, floating-point numbers, the rest of OScFeederDq, which is the
-- skipping of white space and of inactive assembly, includes and the other directives, the
-- other entry points of OModulePath, function types in interface files, and the rest of the
-- parser, the generation of LLVM code, the language server and the driver.
pub mod Prelude
pub mod DqmIf
pub mod Feeder
pub mod Preproc
pub mod ConstInt
pub mod ModulePath
pub mod TypeSpec
pub mod Scopes
pub mod Attributes
pub mod Parser
pub mod Typing
pub mod Calls
pub mod Objects
pub mod Layout
pub mod Utf8
pub mod Tests
