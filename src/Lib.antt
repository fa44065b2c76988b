-- ===== src/Lib.antt =====
-- vsm_cpp_sdk: two programs of the SDK at Python 2.7. tools/mavgen/mavgen.py reads MAVLink definitions
-- in XML and generates C++, Python and Lua from them. tools/cpplint.py checks C++ sources and is
-- modelled in part.
--
-- What both use:
--   Text, Text.Decimal, Text.Int, Text.Find   the strings and the numbers of Python
--   Text.Regex, Text.Regex.Syntax   a matcher for the patterns of `re`, and the reader of patterns
--   Text.Path   the functions of os.path on names
--   Result    the exceptions, Error
--   Dict      a Python dict with text keys, in the order of the insertions
-- The parts of tools/mavgen/mavgen.py, and the code that each models:
--   Xml       what xml.etree hands over: elements with a tag, attributes, text and children
--   Types     MlType: the table of types, their sizes and names, and the reading of `name[n]`
--   Crc       x25crc: the checksum over the bytes of a text
--   Model     FilterName, MlFile, MlEnum with its Entry: names, namespaces, entries, Merge
--   Message   MlMessage with its Field: _CalculateCrcExtraByte and the length of a message
--   Parse     ParseEnumEntry to ParseInput: the state `opts` and the loops that fill it
--   Comment   FormatComment and FormatPyComment: paragraphs, words and lines
--   Emit      what the generators share: loops over dicts, entry comments, namespaces
--   Cpp       GenerateEnum to GenerateMsgsImpl: two headers and a source file
--   Lua       Get_enum_from_feld to GenerateLuaOutput: the Wireshark dissector
--   Python    GeneratePyEnum to GeneratePythonOutput: the Python module
--   Driver    ValidateInput, GenerateCppOutput, GenerateOutput, Main: a run of the program
-- The parts of tools/cpplint.py:
--   Lint.State       _CppLintState: the options, the filters and the counts of errors
--   Lint.Nolint, Lint.Nolint.Global   ParseNolintSuppressions, ProcessGlobalSuppresions,
--                    ResetNolintSuppressions, IsErrorSuppressedByNolint
--   Lint.Report      _ShouldPrintError and Error
--   Lint.Includes    _IncludeState: the headers of a file and their order
--   Lint.Functions   _FunctionState: the length of functions
--   Lint.Comments    FindNextMultiLineCommentStart to RemoveMultiLineComments
--   Lint.Strings     _CollapseStrings of CleansedLines
--   Lint.Lines       CleanseRawStrings and CleansedLines
--   Lint.Cleanse     IsCppString and CleanseComments
--   Lint.Brackets, Lint.Brackets.Backward   CloseExpression, ReverseCloseExpression and the searches
--                    in a line
--   Lint.Blocks      _BlockInfo, _ExternCInfo, _ClassInfo, _NamespaceInfo, GetIndentLevel
--   Lint.Nesting, Lint.Nesting.Template, Lint.Nesting.Update   NestingState: the stack of blocks,
--                    InTemplateArgumentList and Update
--   Lint.FileInfo    FileInfo: the name of a file in its repository
--   Lint.HeaderGuard  GetHeaderGuardCPPVariable and CheckForHeaderGuard
--   Lint.IncludeLine  _DropCommonSuffixes, _ClassifyInclude and CheckIncludeLine
--   Lint.FileChecks  CheckForCopyright, CheckForBadCharacters, CheckForNewlineAtEOF, and the checks of
--                    a line from CheckForMultilineCommentsAndStrings to CheckInvalidIncrement
--   Lint.HeaderIncluded  CheckHeaderFileIncluded
--   Lint.StyleChecks  GetPreviousNonBlankLine, CheckSectionSpacing, the tests of the blocks in a
--                    namespace, CheckMakePairUsesDeduction and CheckPrintf
--   Lint.Methods     IsDerivedFunction to IsInitializerList, CheckRedundantVirtual and
--                    CheckRedundantOverrideOrFinal
--   Lint.LineChecks  CheckForFunctionLengths and CheckComment
--   Lint.Spacing     CheckOperatorSpacing, CheckParenthesisSpacing and CheckCommaSpacing
--   Lint.Features    FlagCxx11Features and FlagCxx14Features
--   Lint.Reports     how the checks make a Report
-- Tests holds concrete inputs and runs.
--
-- Main of mavgen.py checks its options, validates, and lets ParseInput build `opts` from MlFile, MlEnum
-- and MlMessage; the generators only read `opts`, and Driver puts their texts into files. In cpplint.py
-- a check hands a Report to Error, which asks the suppressions, then the state, prints it and counts
-- it; the checks keep an _IncludeState, a _FunctionState and a NestingState for each file.
--
-- How the code is modelled. A str of mavgen.py is a list of bytes, and the classes \w, \d and \s of
-- `re` and the methods lower and capitalize are those of ASCII, as without a locale; cpplint.py reads
-- lines of Unicode, lists of code points, with the white space of Unicode for strip and rstrip and the
-- classes of ASCII for `re`. A number of the XML is an integer ℤ over the native ℕ; a size or a length
-- is a ℕ. A method that changes an object returns the changed object. A function that may raise
-- returns a Result; the handlers only raise on, so the first error ends the run. A generator
-- returns the text that it writes, and a check what it reports. Python's eval, the XML parser, the
-- validation of minixsv, the existence of directories and the order in which a dict is visited are
-- the fields of World, and arguments below it.
-- MlFile.messages stands beside its file in FileEntry: no object is shared and changed after it is
-- stored, but for the enum that Merge changes, which only the dict of enums is asked for.
-- MlFile.enums is left out, since nothing reads it.
-- The sort by `sorted` is an insertion sort that keeps the order of equals. Loops are structural
-- recursion on the list or the text, but for these: RemoveMultiLineComments has the number of lines and
-- one more as fuel, where each round passes a line; _CollapseStrings and the inner loop of
-- CleanseRawStrings have the length of the line and one more, where each round makes it shorter; a
-- binary logarithm has its number as fuel. The printing of numbers takes the number as its bound.
-- The loop over namespaces in NestingState.Update has the length of the line and one more, where each
-- round takes a word; InTemplateArgumentList has the number of the characters and lines from its place
-- on and one more, where each round passes a character or a line; the loops up the directories in
-- RepositoryName have the length of the path and two more, where each round shortens it. The loop of
-- CheckOperatorSpacing has the length of the line and one more, where each round takes a word
-- `operator`, and ReplaceAll has the length of the text, where each match takes a character.
-- The patterns of cpplint.py are functions that find the match `re` would, where a proof is about
-- what they match; a pattern with several ways to match, as the one of comments in CleanseRawStrings,
-- follows all of them. The other patterns stand as in the source, as texts that Text.Regex.Syntax
-- reads; the matcher of Text.Regex tries the ways to match in the order of `re` and keeps the groups
-- of the first one. A round of a repetition takes a character, so the length of the text bounds them.
-- A block of NestingState is a record, and Update puts the changed one in its place; the copies that
-- the code makes of a stack, to go back to it, need no copying here. previous_stack_top is the top as
-- it was before the change of the same line.
-- The stacks of the bracket searches are lists with the top first, and -1 as a position is `none`.
--
-- Not modelled in mavgen.py: the messages that the program prints, the parsing of the command line by
-- optparse, the part of a file that is left by a generator that raises, and failures of the file
-- system. Not modelled in cpplint.py: CheckForNamespaceIndentation, the other checks of style, as
-- CheckStyle, CheckBraces, CheckSpacing and CheckLanguage, the calls of all checks by ProcessLine and
-- ProcessFileData, and the reading of files and options. The libraries tools/mavgen/lib/genxmlif and
-- tools/mavgen/lib/minixsv are third-party code; the SDK in src, include and test is C++.
pub mod Prelude
pub mod Text
pub mod Result
pub mod Xml
pub mod Types
pub mod Crc
pub mod Dict
pub mod Model
pub mod Message
pub mod Parse
pub mod Comment
pub mod Emit
pub mod Cpp
pub mod Lua
pub mod Python
pub mod Driver
pub mod Lint
pub mod Tests
